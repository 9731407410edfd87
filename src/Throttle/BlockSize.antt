-- ===== src/Throttle/BlockSize.antt =====
-- process/throttle/block.go: the number of items of a block, by what became of the last blocks. The
-- statistics have the newest block first, where Go appends it and reads from the end. The smallest
-- and the largest number of items are arguments (both are 15000 in process/constants.go).
use elrond_go.Prelude.{
  ℕ, ◌+◌, ◌-◌, ◌*◌, ◌/◌, ◌%◌, ◌^◌, Bool, true, false, List, [], ◌∷◌, ltb, leb, ◌==◌, if◌then◌else◌,
}

pub record BlockInfo : Type 0 where
  pub succeed : Bool
  pub round : ℕ
  pub items : ℕ
  pub max_items : ℕ

pub record BlockSizeThrottle : Type 0 where
  pub statistics : List BlockInfo
  pub max_items : ℕ

abbrev pub jump_above_percent : ℕ
jump_above_percent = 90

abbrev pub jump_below_percent : ℕ
jump_below_percent = 90

-- uint32(float32(n) * 0.5), which is exact below 2 ^ 24
unfoldable pub half : ℕ → ℕ
half n = n / 2

unfoldable pub max_uint32 : ℕ → ℕ → ℕ
max_uint32 a b = if ltb b a then a else b

unfoldable pub add_info : ℕ → ℕ → BlockSizeThrottle → BlockSizeThrottle
add_info round items t = record t {
  statistics =
      record { succeed = false; round = round; items = items; max_items = t.max_items }
      ∷ t.statistics;
}

unfoldable pub succeed_in : ℕ → List BlockInfo → List BlockInfo
succeed_in round [] = []
succeed_in round (b ∷ bs) =
    let rest = succeed_in round bs in
    if b.round == round then record b { succeed = true } ∷ bs else b ∷ rest

unfoldable pub succeed_at : ℕ → BlockSizeThrottle → BlockSizeThrottle
succeed_at round t = record t { statistics = succeed_in round t.statistics }

module _ (min_items max_items : ℕ) where
  unfoldable pub new_block_size_throttle : BlockSizeThrottle
  new_block_size_throttle = record { statistics = []; max_items = max_items }

  unfoldable pub get_closer_above_max_items_used_without_succeed : ℕ → List BlockInfo → ℕ
  get_closer_above_max_items_used_without_succeed current [] = max_items
  get_closer_above_max_items_used_without_succeed current (b ∷ bs) =
      let rest = get_closer_above_max_items_used_without_succeed current bs in
      if b.succeed then rest else if ltb current b.max_items then b.max_items else rest

  unfoldable pub get_closer_below_max_items_used_with_succeed : ℕ → List BlockInfo → ℕ
  get_closer_below_max_items_used_with_succeed current [] = min_items
  get_closer_below_max_items_used_with_succeed current (b ∷ bs) =
      let rest = get_closer_below_max_items_used_with_succeed current bs in
      if b.succeed then (if ltb b.max_items current then b.max_items else rest) else rest

  -- towards a larger number: all of the way, or half of it
  unfoldable pub jump_above : ℕ → ℕ → ℕ
  jump_above last above =
      if ltb jump_above_percent (last * 100 % 2 ^ 32 / above)
      then above
      else last + max_uint32 1 (half (above - last))

  unfoldable pub get_max_items_when_succeed : List BlockInfo → ℕ → ℕ
  get_max_items_when_succeed bs last =
      if leb max_items last
      then max_items
      else jump_above last (get_closer_above_max_items_used_without_succeed last bs)

  unfoldable pub jump_below : ℕ → ℕ → ℕ
  jump_below last below =
      if ltb jump_below_percent (below * 100 % 2 ^ 32 / last)
      then below
      else last - max_uint32 1 (half (last - below))

  unfoldable pub get_max_items_when_not_succeed : List BlockInfo → ℕ → ℕ
  get_max_items_when_not_succeed bs last =
      if leb last min_items
      then min_items
      else jump_below last (get_closer_below_max_items_used_with_succeed last bs)

  unfoldable pub next_max_items : List BlockInfo → ℕ → ℕ
  next_max_items [] current = current
  next_max_items (b ∷ bs) current =
      if b.succeed
      then get_max_items_when_succeed (b ∷ bs) b.max_items
      else get_max_items_when_not_succeed (b ∷ bs) b.max_items

  unfoldable pub compute_max_items : BlockSizeThrottle → BlockSizeThrottle
  compute_max_items t = record t { max_items = next_max_items t.statistics t.max_items }

unfoldable pub max_items_to_add : BlockSizeThrottle → ℕ
max_items_to_add t = t.max_items

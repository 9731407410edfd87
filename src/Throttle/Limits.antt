-- ===== src/Throttle/Limits.antt =====
-- The number of items stays between its limits, whatever becomes of the blocks.
use elrond_go.Prelude.{
  ℕ, ◌≡◌, ◌*◌, ◌/◌, ◌%◌, ◌^◌, ◌<◌, ◌≤◌, inl, inr, Bool, true, false, List, [], ◌∷◌, arith, ltb, leb,
  ◌==◌, if◌then◌else◌, Bool-cases,
}
use elrond_go.Prelude.Maps.{All}
use elrond_go.Throttle.BlockSize.{
  BlockInfo, BlockSizeThrottle, jump_above_percent, jump_below_percent, half, max_uint32, add_info,
  succeed_in, succeed_at, new_block_size_throttle, get_closer_above_max_items_used_without_succeed,
  get_closer_below_max_items_used_with_succeed, jump_above, get_max_items_when_succeed, jump_below,
  get_max_items_when_not_succeed, next_max_items, compute_max_items, max_items_to_add,
}

-- what the block processor does with the throttle
pub data Step : Type 0 where
  add : (round items : ℕ) → Step
  succeed : (round : ℕ) → Step
  compute : Step

module _ (lo hi : ℕ) where
  unfoldable pub step : Step → BlockSizeThrottle → BlockSizeThrottle
  step (add round items) t = add_info round items t
  step (succeed round) t = succeed_at round t
  step compute t = compute_max_items lo hi t

  unfoldable pub run : List Step → BlockSizeThrottle → BlockSizeThrottle
  run [] t = t
  run (s ∷ ss) t = run ss (step s t)

  abbrev pub Within : ℕ → Type 0
  Within n = (lo ≤ n) × (n ≤ hi)

  -- every number in the state is between the limits
  record IsLimited (t : BlockSizeThrottle) : Type 0 where
    current : Within t.max_items
    past : All (λ b. Within b.max_items) t.statistics

  closer_above :
      (last : ℕ) (bs : List BlockInfo)
      → last < hi
      → lo ≤ hi
      → All (λ b. Within b.max_items) bs
      → (last < get_closer_above_max_items_used_without_succeed lo hi last bs)
        × (get_closer_above_max_items_used_without_succeed lo hi last bs ≤ hi)
  unfolding get_closer_above_max_items_used_without_succeed
  closer_above last [] b l a = (b, omega arith)
  closer_above last (x ∷ bs) b l a =
      let ih = closer_above last bs b l a.1 in
      elim (Bool-cases x.succeed) [
        | inl t ↦ rw t ih
        | inr t ↦ elim (Bool-cases (ltb last x.max_items)) [
          | inl u ↦ let w : last < x.max_items = ground arith in rw (t, u) (w, a.0.1)
          | inr u ↦ rw (t, u) ih
        ]
      ]

  closer_below :
      (last : ℕ) (bs : List BlockInfo)
      → lo < last
      → All (λ b. Within b.max_items) bs
      → (get_closer_below_max_items_used_with_succeed lo hi last bs < last)
        × (lo ≤ get_closer_below_max_items_used_with_succeed lo hi last bs)
  unfolding get_closer_below_max_items_used_with_succeed
  closer_below last [] b a = (b, omega arith)
  closer_below last (x ∷ bs) b a =
      let ih = closer_below last bs b a.1 in
      elim (Bool-cases x.succeed) [
        | inr t ↦ rw t ih
        | inl t ↦ elim (Bool-cases (ltb x.max_items last)) [
          | inl u ↦ let w : x.max_items < last = ground arith in rw (t, u) (w, a.0.0)
          | inr u ↦ rw (t, u) ih
        ]
      ]

  jump_above_between :
      (last above : ℕ)
      → last < above
      → (last < jump_above lo hi last above) × (jump_above lo hi last above ≤ above)
  unfolding jump_above max_uint32 half
  jump_above_between last above b =
      elim (Bool-cases (ltb jump_above_percent (last * 100 % 2 ^ 32 / above))) [
        | inl t ↦ rw t (b, omega arith)
        | inr t ↦ rw t (ground (arith, b), ground (arith, b))
      ]

  jump_below_between :
      (last below : ℕ)
      → below < last
      → (below ≤ jump_below lo hi last below) × (jump_below lo hi last below < last)
  unfolding jump_below max_uint32 half
  jump_below_between last below b =
      elim (Bool-cases (ltb jump_below_percent (below * 100 % 2 ^ 32 / last))) [
        | inl t ↦ rw t (omega arith, b)
        | inr t ↦ rw t (ground (arith, b), ground (arith, b))
      ]

  when_succeed-Within :
      (bs : List BlockInfo) (last : ℕ)
      → lo ≤ hi
      → Within last
      → All (λ b. Within b.max_items) bs
      → Within (get_max_items_when_succeed lo hi bs last)
  unfolding get_max_items_when_succeed
  when_succeed-Within bs last l w a = elim (Bool-cases (leb hi last)) [
    | inl t ↦ rw t (l, omega arith)
    | inr t ↦
        let c = closer_above last bs (ground (arith, t)) l a in
        let above = get_closer_above_max_items_used_without_succeed lo hi last bs in
        let j = jump_above_between last above c.0 in
        let v = w.0 in rw t (omega (arith, j.0, v), omega (arith, j.1, c.1))
  ]

  when_not_succeed-Within :
      (bs : List BlockInfo) (last : ℕ)
      → lo ≤ hi
      → Within last
      → All (λ b. Within b.max_items) bs
      → Within (get_max_items_when_not_succeed lo hi bs last)
  unfolding get_max_items_when_not_succeed
  when_not_succeed-Within bs last l w a = elim (Bool-cases (leb last lo)) [
    | inl t ↦ rw t (omega arith, l)
    | inr t ↦
        let c = closer_below last bs (ground (arith, t)) a in
        let below = get_closer_below_max_items_used_with_succeed lo hi last bs in
        let j = jump_below_between last below c.0 in
        let v = w.1 in rw t (omega (arith, j.0, c.1), omega (arith, j.1, v))
  ]

  either-Within : (t : Bool) (a b : ℕ) → Within a → Within b → Within (if t then a else b)
  either-Within true a b w v = w
  either-Within false a b w v = v

  next_max_items-Within :
      (bs : List BlockInfo) (current : ℕ)
      → lo ≤ hi
      → Within current
      → All (λ b. Within b.max_items) bs
      → Within (next_max_items lo hi bs current)
  unfolding next_max_items
  next_max_items-Within [] current l w a = w
  next_max_items-Within (b ∷ bs) current l w a =
      either-Within b.succeed _ _ (when_succeed-Within (b ∷ bs) b.max_items l a.0 a)
        (when_not_succeed-Within (b ∷ bs) b.max_items l a.0 a)

  succeed_in-Within :
      (round : ℕ) (bs : List BlockInfo)
      → All (λ b. Within b.max_items) bs
      → All (λ b. Within b.max_items) (succeed_in round bs)
  unfolding succeed_in
  succeed_in-Within round [] a = tt
  succeed_in-Within round (b ∷ bs) a = elim (Bool-cases (b.round == round)) [
    | inl t ↦ rw t (a.0, a.1)
    | inr t ↦ rw t (a.0, succeed_in-Within round bs a.1)
  ]

  step-IsLimited : (s : Step) (t : BlockSizeThrottle) → lo ≤ hi → IsLimited t → IsLimited (step s t)
  unfolding step add_info succeed_at compute_max_items
  step-IsLimited (add round items) t l i = record {
    current = i.current;
    past = (i.current, i.past);
  }
  step-IsLimited (succeed round) t l i = record {
    current = i.current;
    past = succeed_in-Within round t.statistics i.past;
  }
  step-IsLimited compute t l i = record {
    current = next_max_items-Within t.statistics t.max_items l i.current i.past;
    past = i.past;
  }

  run-IsLimited :
      (ss : List Step) (t : BlockSizeThrottle) → lo ≤ hi → IsLimited t → IsLimited (run ss t)
  unfolding run
  run-IsLimited [] t l i = i
  run-IsLimited (s ∷ ss) t l i = run-IsLimited ss (step s t) l (step-IsLimited s t l i)

  -- Where the smallest number of items is not larger than the largest one, MaxItemsToAdd is between
  -- the two after any calls of Add, Succeed and ComputeMaxItems on a new throttle; where the two are
  -- equal, as they are in the code, it never changes.
  pub max_items_to_add-run :
      (ss : List Step)
      → lo ≤ hi
      → Within (max_items_to_add (run ss (new_block_size_throttle lo hi)))
        × (lo ≡ hi → max_items_to_add (run ss (new_block_size_throttle lo hi)) ≡ hi)
  unfolding max_items_to_add new_block_size_throttle
  max_items_to_add-run ss l =
      let i =
        run-IsLimited ss (record { statistics = []; max_items = hi }) l
          (record { current = (l, omega arith); past = tt }) in
      let c = i.current in (c, λ e. let a = c.0 in let b = c.1 in omega (arith, a, b, e))

-- ===== src/Throttle/Tests.antt =====
-- A block that fails, one that succeeds, and what comes next.
use elrond_go.Prelude.{ℕ, ◌≡◌, refl, List, [], ◌∷◌, arith}
use elrond_go.Throttle.BlockSize.{
  half, max_uint32, add_info, succeed_in, succeed_at, new_block_size_throttle,
  get_closer_above_max_items_used_without_succeed, get_closer_below_max_items_used_with_succeed,
  jump_above, get_max_items_when_succeed, jump_below, get_max_items_when_not_succeed,
  next_max_items, compute_max_items, max_items_to_add,
}
use elrond_go.Throttle.Limits.{Step, add, succeed, compute, step, run, Within, max_items_to_add-run}

abbrev steps : List Step
steps = add 1 70 ∷ compute ∷ add 2 60 ∷ succeed 2 ∷ compute ∷ []

-- from 1000, half of the way to 100, and half of the way back
steps_lead : max_items_to_add (run 100 1000 steps (new_block_size_throttle 100 1000)) ≡ 775
unfolding max_items_to_add run step new_block_size_throttle add_info compute_max_items
    next_max_items get_max_items_when_not_succeed get_closer_below_max_items_used_with_succeed
    jump_below half max_uint32 succeed_at succeed_in get_max_items_when_succeed
    get_closer_above_max_items_used_without_succeed jump_above
steps_lead = refl

abbrev low : ℕ
low = 100

abbrev high : ℕ
high = 1000

max_items_to_add-run_example :
    Within low high (max_items_to_add (run low high steps (new_block_size_throttle low high)))
    × (low ≡ high → max_items_to_add (run low high steps (new_block_size_throttle low high)) ≡ high)
max_items_to_add-run_example = max_items_to_add-run low high steps (omega arith)

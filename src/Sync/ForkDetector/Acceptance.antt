-- ===== src/Sync/ForkDetector/Acceptance.antt =====
-- Which headers checkBlockBasicValidity lets in.
use elrond_go.Prelude.{ℕ, ◌+◌, ◌≤◌, ◌<◌, ◌≡◌, ◌↔◌, true, false, none, arith}
use elrond_go.Prelude.Int.{
  pos, ◌+ℤ◌, ltb_ℤ, to_int64, to_int64_lem, sub_int64, sub_int64_lem, wrap_int64, two63, two64,
  ◌-ℤ◌,
}
use elrond_go.Sync.ForkDetector.Types.{
  BlockHeaderState, received, processed, proposed, state_eq, Header, CheckpointInfo, Rounder,
}
use elrond_go.Sync.ForkDetector.Validity.{is_signed, is_random_seed_valid, check_position}

-- the conditions, in natural numbers: `index` is the round of the node
pub record IsAcceptable (index : ℕ) (final : CheckpointInfo) (h : Header) (state : BlockHeaderState)
    : Type 0 where
  pub round_reached : final.round ≤ h.round
  pub nonce_reached : final.nonce ≤ h.nonce
  pub not_from_future : h.round ≤ index + 1
  pub one_nonce_per_round : h.nonce + final.round ≤ h.round + final.nonce
  pub proposed_seeds : state ≡ proposed → is_random_seed_valid h ≡ true
  pub received_signed : state ≡ received → is_signed h ≡ true
  pub processed_signed : state ≡ processed → is_signed h ≡ true

-- no number is near the end of int64
pub record InRange (index : ℕ) (final : CheckpointInfo) (h : Header) : Type 0 where
  pub index_small : index + 1 < two63
  pub final_nonce_small : final.nonce < two63
  pub final_round_small : final.round < two63
  pub nonce_small : h.nonce < two63
  pub round_small : h.round < two63

wrap_next : (index : ℕ) → index + 1 < two63 → wrap_int64 (pos index +ℤ pos 1) ≡ pos (index + 1)
unfolding wrap_int64 ◌+ℤ◌
wrap_next index h = ground arith

module _ (index seconds : ℕ) (final : CheckpointInfo) (h : Header) (state : BlockHeaderState)
    (range : InRange index final h) where
  -- Where no number is near 2 ^ 63, a header passes the checks on its position exactly when its
  -- round and its nonce are not below the final checkpoint's, its round is at most the next one,
  -- it has gained no more nonces than rounds over the final checkpoint, a proposed header has both
  -- random seeds, and a received or processed one a bitmap that is not all zero.
  pub check_position_iff :
      (check_position (record { index = pos index; seconds = seconds }) final h state ≡ none)
      ↔ IsAcceptable index final h state
  unfolding check_position state_eq
  check_position_iff =
      rw
        (
          to_int64_lem h.round range.round_small,
          to_int64_lem final.round range.final_round_small,
          to_int64_lem h.nonce range.nonce_small,
          to_int64_lem final.nonce range.final_nonce_small,
          sub_int64_lem h.round final.round range.round_small range.final_round_small,
          sub_int64_lem h.nonce final.nonce range.nonce_small range.final_nonce_small,
          wrap_next index range.index_small,
        )
        (λ e. ground arith, λ a. ground arith)

-- the difference of two nonces is not negative only if it should be, also where int64 wraps
nonce_reached_always :
    (n m : ℕ)
    → n < two64
    → m < two63
    → ltb_ℤ (sub_int64 (to_int64 n) (to_int64 m)) (pos 0) ≡ false
    → m ≤ n
unfolding sub_int64 to_int64 wrap_int64 ◌-ℤ◌
nonce_reached_always n m h k = ground arith

-- An accepted header's nonce is at least the final checkpoint's, for every uint64 nonce, also where
-- the conversion to int64 wraps, as long as the final checkpoint's nonce is below 2 ^ 63.
pub check_position-nonce :
    (r : Rounder) (final : CheckpointInfo) (h : Header) (state : BlockHeaderState)
    → h.nonce < two64
    → final.nonce < two63
    → check_position r final h state ≡ none
    → final.nonce ≤ h.nonce
unfolding check_position
check_position-nonce r final h state small final_small e =
    nonce_reached_always h.nonce final.nonce small final_small (ground arith)

-- ===== src/Consensus/Size.antt =====
-- ComputeSize, the number of validators that have done a job.
use mathlib.Core.Path.{subst}
use elrond_go.Prelude.{
  ℕ, suc, ◌≡◌, refl, sym, ◌∙◌, inl, inr, Bool, true, false, Option, none, some, some-eq, List, [],
  ◌∷◌, arith, ◌==◌, Bool-cases,
}
use elrond_go.Prelude.Bytes.{Bytes, bytes_eq, bytes_eq_iff}
use elrond_go.Consensus.Round.{
  RoundState, ConsensusState, set_job, is_member, job_done, state_at, set_job_done, is_job_done,
  count_done, compute_size, set_consensus_group, reset_round_state, new_round_state, is_true,
  answer, reset_jobs,
}

cleared : (o : Option RoundState) (subround : ℕ) → is_true (answer (reset_jobs o) subround) ≡ false
cleared none subround = refl
cleared (some st) subround = refl

-- no key twice
abbrev pub IsGroup : List Bytes → Type 0
IsGroup [] = Unit
IsGroup (k ∷ ks) = (is_member k ks ≡ false) × IsGroup ks

count_done-same :
    (f g : Bytes → Bool) (ks : List Bytes)
    → ((k : Bytes) → is_member k ks ≡ true → f k ≡ g k)
    → count_done f ks ≡ count_done g ks
unfolding count_done is_member
count_done-same f g [] h = refl
count_done-same f g (k ∷ ks) h =
    let e : f k ≡ g k = h k (rw ((bytes_eq_iff k k).1 refl) refl) in
    let r = count_done-same f g ks (λ j i.
      h j (elim (Bool-cases (bytes_eq k j)) [ inl t ↦ rw t refl | inr t ↦ rw (t, i) refl ])) in
    rw (e, r) refl

-- one more is done
count_done-more :
    (f g : Bytes → Bool) (key : Bytes) (ks : List Bytes)
    → IsGroup ks
    → is_member key ks ≡ true
    → f key ≡ false
    → g key ≡ true
    → ((k : Bytes) → bytes_eq k key ≡ false → g k ≡ f k)
    → count_done g ks ≡ suc (count_done f ks)
unfolding count_done is_member
count_done-more f g key [] d i hf hg h = cc
count_done-more f g key (k ∷ ks) d i hf hg h = elim (Bool-cases (bytes_eq k key)) [
  | inl t ↦
      let e : k ≡ key = (bytes_eq_iff k key).0 t in
      let same = count_done-same g f ks (λ j ij. h j (other k key j ks e d.0 ij)) in
      rw (e, hf, hg, same) refl
  | inr t ↦
      let r = count_done-more f g key ks d.1 (rw t at i) hf hg h in
      rw (h k t, r) (elim (Bool-cases (f k)) [ inl u ↦ rw u refl | inr u ↦ rw u refl ])
]
  where
    other :
        (k key j : Bytes) (ks : List Bytes)
        → k ≡ key
        → is_member k ks ≡ false
        → is_member j ks ≡ true
        → bytes_eq j key ≡ false
    other k key j ks e a b = elim (Bool-cases (bytes_eq j key)) [
      | inl t ↦
          let p : j ≡ k = (bytes_eq_iff j key).0 t ∙ sym e in
          let b' : is_member k ks ≡ true = rw p at b in let c : true ≡ false = rw b' at a in cc
      | inr t ↦ t
    ]

none_done :
    (f : Bytes → Bool) (ks : List Bytes)
    → ((k : Bytes) → is_member k ks ≡ true → f k ≡ false)
    → count_done f ks ≡ 0
unfolding count_done is_member
none_done f [] h = refl
none_done f (k ∷ ks) h =
    let e : f k ≡ false = h k (rw ((bytes_eq_iff k k).1 refl) refl) in
    let r = none_done f ks (λ j i.
      h j (elim (Bool-cases (bytes_eq k j)) [ inl t ↦ rw t refl | inr t ↦ rw (t, i) refl ])) in
    rw (e, r) refl

-- the state with one job done
module _ (cns : ConsensusState) (key : Bytes) (st : RoundState) (subround : ℕ) where
  with_job : ConsensusState
  with_job = record cns {
    validator_round_states = state_at key (set_job st subround true) cns.validator_round_states;
  }

  with_job-done : is_job_done with_job key subround ≡ true
  unfolding with_job is_job_done job_done state_at set_job
  with_job-done =
      let t : bytes_eq key key ≡ true = (bytes_eq_iff key key).1 refl in
      let u : (subround == subround) ≡ true = ground arith in rw (t, u) refl

  with_job-others :
      (k : Bytes)
      → bytes_eq k key ≡ false
      → is_job_done with_job k subround ≡ is_job_done cns k subround
  unfolding with_job is_job_done job_done state_at
  with_job-others k t = rw t refl

-- Where no validator stands twice in the consensus group, SetJobDone for a validator of the group
-- that has not done the job of a subround raises ComputeSize of that subround by one.
pub compute_size-set_job_done :
    (cns cns' : ConsensusState) (key : Bytes) (subround : ℕ)
    → IsGroup cns.consensus_group
    → is_member key cns.consensus_group ≡ true
    → job_done cns key subround ≡ some false
    → set_job_done key subround true cns ≡ some cns'
    → compute_size cns' subround ≡ suc (compute_size cns subround)
unfolding compute_size job_done set_job_done with_job
compute_size-set_job_done cns cns' key subround d i jd set =
    by_state (cns.validator_round_states key) refl
  where
    undone : is_job_done cns key subround ≡ false
    undone = unfold is_job_done in rw jd refl

    by_state :
        (o : Option RoundState)
        → cns.validator_round_states key ≡ o
        → compute_size cns' subround ≡ suc (compute_size cns subround)
    by_state none e = let j : none ≡ some false = rw e at jd in cc
    by_state (some st) e =
        let p : with_job cns key st subround ≡ cns' = some-eq (rw (e, set_job_done) at set) in
        subst (λ c. compute_size c subround ≡ suc (compute_size cns subround)) p
          (count_done-more (λ k. is_job_done cns k subround)
            (λ k. is_job_done (with_job cns key st subround) k subround) key cns.consensus_group d i
            undone (with_job-done cns key st subround) (with_job-others cns key st subround))

-- ComputeSize is 0 after SetConsensusGroup and after ResetRoundState.
pub compute_size-set_consensus_group :
    (group : List Bytes) (cns : ConsensusState) (subround : ℕ)
    → (compute_size (set_consensus_group group cns) subround ≡ 0)
      × (compute_size (reset_round_state cns) subround ≡ 0)
unfolding compute_size is_job_done job_done set_consensus_group new_round_state reset_round_state
compute_size-set_consensus_group group cns subround = (
  none_done (λ k. is_job_done (set_consensus_group group cns) k subround) group (λ k i. rw i refl),
  none_done (λ k. is_job_done (reset_round_state cns) k subround) cns.consensus_group
      (λ k i. rw i (cleared (cns.validator_round_states k) subround)),
)

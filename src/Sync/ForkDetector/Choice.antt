-- ===== src/Sync/ForkDetector/Choice.antt =====
-- CheckFork: which competing header is chosen, and when a fork is reported.
use elrond_go.Prelude.{
  ℕ, ◌≡◌, ◌≢◌, refl, ◌∙◌, ◌⊎◌, ◌↔◌, inl, inr, Bool, true, false, not, ◌&&◌, ◌||◌, List, [], ◌∷◌,
  arith, ltb, ◌==◌, Bool-cases,
}
use elrond_go.Prelude.Bytes.{
  Bytes, bytes_lt, bytes_eq_iff, bytes_lt_irrefl, bytes_lt_trans, bytes_lt_total,
}
use elrond_go.Prelude.Maps.{All, Any, here, there}
use elrond_go.Sync.ForkDetector.Types.{received_too_late, processed, state_eq, HeaderInfo}
use elrond_go.Sync.ForkDetector.Check.{
  current_fork_round, compute_fork_info, should_signal_fork, Scan, scan_start, scan_step, scan,
  signals, is_single,
}

-- the order of fork choice: the lower round, then the lower hash
abbrev pub beats : ℕ → Bytes → ℕ → Bytes → Bool
beats round hash round' hash' = ltb round round' || (round == round' && bytes_lt hash hash')

-- a header that counts against the node's own: neither processed nor late
abbrev pub competes : HeaderInfo → Bool
competes h = not (state_eq h.state processed) && not (state_eq h.state received_too_late)

beats_trans :
    (r₁ : ℕ) (h₁ : Bytes) (r₂ : ℕ) (h₂ : Bytes) (r₃ : ℕ) (h₃ : Bytes)
    → beats r₁ h₁ r₂ h₂ ≡ false
    → beats r₂ h₂ r₃ h₃ ≡ false
    → beats r₁ h₁ r₃ h₃ ≡ false
beats_trans r₁ h₁ r₂ h₂ r₃ h₃ p q = ground (
  arith,
  bytes_lt_trans h₁ h₃ h₂,
  bytes_lt_total h₂ h₃,
  bytes_lt_total h₁ h₂,
  bytes_lt_trans h₂ h₁ h₃,
)

-- what one header does to the choice so far
data Chosen (h : HeaderInfo) (s s' : Scan) : Type 0 where
  kept :
      s'.round ≡ s.round
      → s'.hash ≡ s.hash
      → (competes h ≡ true → beats (current_fork_round h) h.hash s.round s.hash ≡ false)
      → Chosen h s s'
  taken :
      competes h ≡ true
      → s'.round ≡ current_fork_round h
      → s'.hash ≡ h.hash
      → beats (current_fork_round h) h.hash s.round s.hash ≡ true
      → Chosen h s s'

scan_step-Chosen : (h : HeaderInfo) (s : Scan) → Chosen h s (scan_step h s)
unfolding scan_step compute_fork_info
scan_step-Chosen h s = elim (Bool-cases (state_eq h.state processed)) [
  | inl p ↦ rw p (kept refl refl (λ e. ground arith))
  | inr p ↦ rw p (elim (Bool-cases (state_eq h.state received_too_late)) [
    | inl l ↦ rw l (kept refl refl (λ e. ground arith))
    | inr l ↦ rw l (elim (Bool-cases (ltb (current_fork_round h) s.round)) [
      | inl t ↦ rw t (taken (ground arith) refl refl (ground arith))
      | inr t ↦
          rw t (elim (Bool-cases ((current_fork_round h == s.round) && bytes_lt h.hash s.hash)) [
            | inl q ↦ rw q (taken (ground arith) refl refl (ground arith))
            | inr q ↦ rw q (kept refl refl (λ e. ground arith))
          ])
    ])
  ])
]

-- `s` holds the least competing header of the list, or the start where none is less
pub record IsBest (start : Scan) (infos : List HeaderInfo) (s : Scan) : Type 0 where
  pub below_start : beats start.round start.hash s.round s.hash ≡ false
  pub below_all :
      All
        (λ h. competes h ≡ true → beats (current_fork_round h) h.hash s.round s.hash ≡ false)
        infos
  pub attained :
      ((s.round ≡ start.round) × (s.hash ≡ start.hash))
      ⊎ Any (λ h. (competes h ≡ true) × (s.round ≡ current_fork_round h) × (s.hash ≡ h.hash)) infos

beats_irrefl : (r : ℕ) (h : Bytes) → beats r h r h ≡ false
beats_irrefl r h = ground (arith, bytes_lt_irrefl h)

beats_asym :
    (r : ℕ) (h : Bytes) (r' : ℕ) (h' : Bytes) → beats r h r' h' ≡ true → beats r' h' r h ≡ false
beats_asym r h r' h' e = ground (arith, bytes_lt_trans h h' h, bytes_lt_irrefl h)

scan-IsBest : (infos : List HeaderInfo) (s : Scan) → IsBest s infos (scan infos s)
unfolding scan
scan-IsBest [] s = record {
  below_start = beats_irrefl s.round s.hash;
  below_all = tt;
  attained = inl (refl, refl);
}
scan-IsBest (h ∷ hs) s =
    extend (scan_step h s) (scan hs (scan_step h s)) (scan_step-Chosen h s)
      (scan-IsBest hs (scan_step h s))
  where
    extend : (s' t : Scan) → Chosen h s s' → IsBest s' hs t → IsBest s (h ∷ hs) t
    extend s' t (kept r e not_less) b = record {
      below_start = rw (← r, ← e) b.below_start;
      below_all = (
        λ c.
            beats_trans (current_fork_round h) h.hash s.round s.hash t.round t.hash (not_less c)
              (rw (← r, ← e) b.below_start),
        b.below_all,
      );
      attained = elim b.attained [
        | inl same ↦ inl (same.0 ∙ r, same.1 ∙ e)
        | inr other ↦ inr (there other)
      ];
    }
    extend s' t (taken c r e less) b = record {
      below_start =
          beats_trans s.round s.hash s'.round s'.hash t.round t.hash
            (rw (r, e) (beats_asym (current_fork_round h) h.hash s.round s.hash less))
            b.below_start;
      below_all = (λ _. rw (← r, ← e) b.below_start, b.below_all);
      attained = elim b.attained [
        | inl same ↦ inr (here (c, same.0 ∙ r, same.1 ∙ e))
        | inr other ↦ inr (there other)
      ];
    }

-- Of the headers of one nonce, CheckFork compares the node's own with the least one that is neither
-- processed nor received too late, in the order of rounds (0 for a notarized header), then hashes;
-- it is the one chosen, unless none is less than the largest round with the empty hash.
pub scan_start-IsBest : (infos : List HeaderInfo) → IsBest scan_start infos (scan infos scan_start)
scan_start-IsBest infos = scan-IsBest infos scan_start

-- a fork at one nonce: several headers, and the chosen one is less than the own, with another hash
abbrev pub shows_fork : List HeaderInfo → Bool
shows_fork infos = not (is_single infos) && signals (scan infos scan_start)

pub own-signals :
    (own : HeaderInfo) (hash : Bytes) (round : ℕ)
    → (should_signal_fork own hash round ≡ true)
      ↔ ((own.hash ≢ hash) × (beats round hash own.round own.hash ≡ true))
unfolding should_signal_fork
own-signals own hash round = (
  λ e. ground (arith, bytes_eq_iff own.hash hash),
  λ e. ground (arith, bytes_eq_iff own.hash hash),
)

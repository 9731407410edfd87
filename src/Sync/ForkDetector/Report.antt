-- ===== src/Sync/ForkDetector/Report.antt =====
-- The answer of CheckFork.
use elrond_go.Prelude.{
  ℕ, ◌≤◌, ◌≡◌, refl, ap, ◌∙◌, ◌⊎◌, ◌↔◌, inl, inr, true, false, List, [], ◌∷◌, arith, ltb,
  if◌then◌else◌, Bool-cases,
}
use elrond_go.Prelude.Maps.{All, Any, here, there}
use elrond_go.Sync.ForkDetector.Types.{HeaderInfo, HeaderMap, ForkDetector, ForkInfo}
use elrond_go.Sync.ForkDetector.Check.{
  max_uint64, scan_start, scan, check_nonce, check_nonces, check_fork, new_fork_info,
}
use elrond_go.Sync.ForkDetector.Choice.{shows_fork}

-- what the walk over the map has found
pub record IsReport (f : ForkInfo) (m : HeaderMap) (g : ForkInfo) : Type 0 where
  pub detected :
      (g.is_detected ≡ true) ↔ ((f.is_detected ≡ true) ⊎ Any (λ e. shows_fork e.1 ≡ true) m)
  pub lowest : All (λ e. shows_fork e.1 ≡ true → g.nonce ≤ e.0) m
  pub below_start : g.nonce ≤ f.nonce
  pub attained :
      ((g.nonce ≡ f.nonce) × (g.hash ≡ f.hash))
      ⊎ Any
          (λ e. (shows_fork e.1 ≡ true) × (g.nonce ≡ e.0) × (g.hash ≡ (scan e.1 scan_start).hash))
          m

check_nonce-skip :
    (nonce : ℕ) (infos : List HeaderInfo) (f : ForkInfo)
    → shows_fork infos ≡ false
    → check_nonce nonce infos f ≡ f
unfolding check_nonce
check_nonce-skip nonce infos f e = ground arith

check_nonce-report :
    (nonce : ℕ) (infos : List HeaderInfo) (f : ForkInfo)
    → shows_fork infos ≡ true
    → check_nonce nonce infos f ≡ (
        if ltb nonce f.nonce
        then record {
          is_detected = true;
          nonce = nonce;
          round = (scan infos scan_start).round;
          hash = (scan infos scan_start).hash;
        }
        else record f { is_detected = true })
unfolding check_nonce
check_nonce-report nonce infos f e = ground arith

IsReport-skip :
    (nonce : ℕ) (infos : List HeaderInfo) (m : HeaderMap) (f g : ForkInfo)
    → shows_fork infos ≡ false
    → IsReport f m g
    → IsReport f ((nonce, infos) ∷ m) g
IsReport-skip nonce infos m f g e r = record {
  detected = (
    λ d. elim (r.detected.0 d) [ inl x ↦ inl x | inr a ↦ inr (there a) ],
    λ d. elim d [ inl x ↦ r.detected.1 (inl x) | inr a ↦ r.detected.1 (inr (rest a)) ],
  );
  lowest = (λ x. cc, r.lowest);
  below_start = r.below_start;
  attained = elim r.attained [ inl x ↦ inl x | inr a ↦ inr (there a) ];
}
  where
    rest :
        Any (λ x. shows_fork x.1 ≡ true) ((nonce, infos) ∷ m) → Any (λ x. shows_fork x.1 ≡ true) m
    rest (here x) = cc
    rest (there a) = a

IsReport-take :
    (nonce : ℕ) (infos : List HeaderInfo) (m : HeaderMap) (f g : ForkInfo)
    → shows_fork infos ≡ true
    → IsReport (check_nonce nonce infos f) m g
    → IsReport f ((nonce, infos) ∷ m) g
IsReport-take nonce infos m f g e r =
    go (check_nonce nonce infos f) (check_nonce-report nonce infos f e) r
  where
    go :
        (f' : ForkInfo)
        → f' ≡ (
            if ltb nonce f.nonce
            then record {
              is_detected = true;
              nonce = nonce;
              round = (scan infos scan_start).round;
              hash = (scan infos scan_start).hash;
            }
            else record f { is_detected = true })
        → IsReport f' m g
        → IsReport f ((nonce, infos) ∷ m) g
    go f' eq b = record {
      detected = (λ d. inr (here e), λ d. b.detected.1 (inl (ground arith)));
      lowest = (λ x. ground (arith, b.below_start), b.lowest);
      below_start = ground (arith, b.below_start);
      attained = elim b.attained [
        | inl same ↦ elim (Bool-cases (ltb nonce f.nonce)) [
          | inl t ↦
              let eq' : f' ≡ record {
                is_detected = true;
                nonce = nonce;
                round = (scan infos scan_start).round;
                hash = (scan infos scan_start).hash;
              } =
                rw t at eq in
              inr (
                here (
                  e,
                  same.0 ∙ ap (λ (x : ForkInfo). x.nonce) eq',
                  same.1 ∙ ap (λ (x : ForkInfo). x.hash) eq',
                ))
          | inr t ↦
              let eq' : f' ≡ record f { is_detected = true } = rw t at eq in
              inl (
                same.0 ∙ ap (λ (x : ForkInfo). x.nonce) eq',
                same.1 ∙ ap (λ (x : ForkInfo). x.hash) eq',
              )
        ]
        | inr other ↦ inr (there other)
      ];
    }

check_nonces-IsReport : (m : HeaderMap) (f : ForkInfo) → IsReport f m (check_nonces m f)
unfolding check_nonces
check_nonces-IsReport [] f = record {
  detected = (λ d. inl d, λ d. elim d [ inl x ↦ x | inr a ↦ none_there a ]);
  lowest = tt;
  below_start = omega arith;
  attained = inl (refl, refl);
}
  where
    none_there :
        Any {A = ℕ × List HeaderInfo} (λ e. shows_fork e.1 ≡ true) [] → f.is_detected ≡ true
    none_there a = elim a [ ]
check_nonces-IsReport ((nonce, infos) ∷ m) f = elim (Bool-cases (shows_fork infos)) [
  | inl e ↦
      IsReport-take nonce infos m f (check_nonces m (check_nonce nonce infos f)) e
        (check_nonces-IsReport m (check_nonce nonce infos f))
  | inr e ↦
      rw (check_nonce-skip nonce infos f e)
        (IsReport-skip nonce infos m f (check_nonces m f) e (check_nonces-IsReport m f))
]

-- Where no fork is forced, the nonce that CheckFork names is at most each nonce that shows a fork,
-- and if it is not the largest uint64 it is one of them, named with the hash that was chosen there.
pub nonce-check_fork_le :
    (d : ForkDetector)
    → d.should_force_fork ≡ false
    → All (λ e. shows_fork e.1 ≡ true → (check_fork d).nonce ≤ e.0) d.headers
      × (((check_fork d).nonce ≡ max_uint64)
          ⊎ Any
              (λ e.
                (shows_fork e.1 ≡ true)
                × ((check_fork d).nonce ≡ e.0)
                × ((check_fork d).hash ≡ (scan e.1 scan_start).hash))
              d.headers)
unfolding check_fork new_fork_info
nonce-check_fork_le d e =
    let r = check_nonces-IsReport d.headers (unfold new_fork_info in new_fork_info) in
    rw e (r.lowest, elim r.attained [ inl same ↦ inl same.0 | inr a ↦ inr a ])

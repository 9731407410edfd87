-- ===== src/Sync/ForkDetector/Buckets.antt =====
-- What the clean-up loops and `append` keep of one bucket.
use mathlib.Core.Path.{subst}
use elrond_go.Prelude.{
  ℕ, ◌≡◌, ◌≢◌, refl, inl, inr, Bool, true, false, ◌&&◌, some, some-eq, List, [], ◌∷◌, ◌++◌, arith,
  Bool-cases,
}
use elrond_go.Prelude.Bytes.{bytes_eq, bytes_eq_iff}
use elrond_go.Prelude.Maps.{All, All-append, All-keep, keep}
use elrond_go.Sync.ForkDetector.Types.{BlockHeaderState, proposed, state_eq, HeaderInfo}
use elrond_go.Sync.ForkDetector.Store.{is_stored, non_empty}

-- no two headers of the slice have the same hash and the same state
abbrev pub NoRepeats : List HeaderInfo → Type 0
NoRepeats [] = Unit
NoRepeats (h ∷ hs) = (is_stored h hs ≡ false) × NoRepeats hs

-- a stored header has its bucket's nonce, and is no proposal
pub record IsStoredAt (nonce : ℕ) (h : HeaderInfo) : Type 0 where
  pub own_nonce : h.nonce ≡ nonce
  pub not_proposed : state_eq h.state proposed ≡ false

pub record IsBucket (nonce : ℕ) (infos : List HeaderInfo) : Type 0 where
  pub occupied : infos ≢ []
  pub entries : All (IsStoredAt nonce) infos
  pub distinct : NoRepeats infos

pub state_eq_sym : (s t : BlockHeaderState) → state_eq s t ≡ state_eq t s
unfolding state_eq
state_eq_sym s t = ground arith

pub state_eq→eq : (s t : BlockHeaderState) → state_eq s t ≡ true → s ≡ t
unfolding state_eq
state_eq→eq s t h = ground arith

bytes_eq_sym : (a b : List ℕ) → bytes_eq a b ≡ bytes_eq b a
bytes_eq_sym a b = ground (arith, bytes_eq_iff a b, bytes_eq_iff b a)

is_stored-keep :
    (p : HeaderInfo → Bool) (h : HeaderInfo) (hs : List HeaderInfo)
    → is_stored h hs ≡ false
    → is_stored h (keep p hs) ≡ false
unfolding is_stored keep
is_stored-keep p h [] e = refl
is_stored-keep p h (x ∷ xs) e = ground (arith, is_stored-keep p h xs)

pub NoRepeats-keep :
    (p : HeaderInfo → Bool) (hs : List HeaderInfo) → NoRepeats hs → NoRepeats (keep p hs)
unfolding keep
NoRepeats-keep p [] d = tt
NoRepeats-keep p (h ∷ hs) d = elim (Bool-cases (p h)) [
  | inl e ↦ rw e (is_stored-keep p h hs d.0, NoRepeats-keep p hs d.1)
  | inr e ↦ rw e (NoRepeats-keep p hs d.1)
]

is_stored-snoc :
    (h x : HeaderInfo) (hs : List HeaderInfo)
    → is_stored x hs ≡ false
    → (bytes_eq h.hash x.hash && state_eq h.state x.state) ≡ false
    → is_stored x (hs ++ h ∷ []) ≡ false
unfolding is_stored
is_stored-snoc h x [] e k = ground arith
is_stored-snoc h x (y ∷ ys) e k = ground (arith, is_stored-snoc h x ys)

pub NoRepeats-snoc :
    (h : HeaderInfo) (hs : List HeaderInfo)
    → NoRepeats hs
    → is_stored h hs ≡ false
    → NoRepeats (hs ++ h ∷ [])
unfolding is_stored
NoRepeats-snoc h [] d e = (refl, tt)
NoRepeats-snoc h (x ∷ xs) d e = (
  is_stored-snoc h x xs d.0
      (rw (bytes_eq_sym h.hash x.hash, state_eq_sym h.state x.state) (ground arith)),
  NoRepeats-snoc h xs d.1 (ground arith),
)

-- what a clean-up leaves of a bucket, if it leaves anything, is a bucket
pub IsBucket-keep :
    (p : HeaderInfo → Bool) (nonce : ℕ) (infos left : List HeaderInfo)
    → IsBucket nonce infos
    → non_empty (keep p infos) ≡ some left
    → IsBucket nonce left
unfolding non_empty
IsBucket-keep p nonce infos left b e =
    from_kept (keep p infos) (All-keep (IsStoredAt nonce) p infos b.entries)
      (NoRepeats-keep p infos b.distinct) e
  where
    from_kept :
        (kept : List HeaderInfo)
        → All (IsStoredAt nonce) kept
        → NoRepeats kept
        → non_empty kept ≡ some left
        → IsBucket nonce left
    from_kept [] a d eq = cc
    from_kept (h ∷ hs) a d eq =
        subst (IsBucket nonce) (some-eq eq)
          (record { occupied = λ n. cc; entries = a; distinct = d })

pub IsBucket-snoc :
    (h : HeaderInfo) (infos : List HeaderInfo)
    → All (IsStoredAt h.nonce) infos
    → NoRepeats infos
    → state_eq h.state proposed ≡ false
    → is_stored h infos ≡ false
    → IsBucket h.nonce (infos ++ h ∷ [])
IsBucket-snoc h infos a d fresh new = record {
  occupied = snoc-ne-nil infos;
  entries =
      All-append (IsStoredAt h.nonce) infos (h ∷ []) a
        (record { own_nonce = refl; not_proposed = fresh }, tt);
  distinct = NoRepeats-snoc h infos d new;
}
  where
    snoc-ne-nil : (xs : List HeaderInfo) → (xs ++ h ∷ []) ≢ []
    snoc-ne-nil [] e = cc
    snoc-ne-nil (x ∷ xs) e = cc

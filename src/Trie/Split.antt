-- ===== src/Trie/Split.antt =====
-- Where two different keys part.
use elrond_go.Prelude.{
  ℕ, suc, ◌<◌, ◌≡◌, refl, ap, sym, inl, inr, Bool, true, false, none, some, some-eq, [], ◌∷◌, ◌++◌,
  arith, ◌==◌, ==_iff, if◌then◌else◌, length, drop, take, get_elem?, Bool-cases,
}
use elrond_go.Prelude.Bytes.{Bytes, bytes_eq}
use elrond_go.Trie.Key.{prefix_len}
use elrond_go.Trie.Map.{strip, IsKey, IsNibbles}

-- two keys with a common prefix `common`, and different nibbles behind it
pub data Diverge (key old : Bytes) : Type 0 where
  diverge :
      (common : Bytes) (a b : ℕ) (x y : Bytes)
      → key ≡ common ++ a ∷ x
      → old ≡ common ++ b ∷ y
      → (a == b) ≡ false
      → prefix_len key old ≡ length common
      → Diverge key old

grow : (k : ℕ) (key old : Bytes) → Diverge key old → Diverge (k ∷ key) (k ∷ old)
unfolding prefix_len
grow k key old (diverge common a b x y p q ne len) =
    diverge (k ∷ common) a b x y (ap (λ t. k ∷ t) p) (ap (λ t. k ∷ t) q) ne
      (let t : (k == k) ≡ true = ground arith in rw t (ap suc len))

-- two different keys part: neither is a prefix of the other
pub IsKey-Diverge :
    (e : Bool) (key old : Bytes)
    → IsKey e key
    → IsKey e old
    → bytes_eq key old ≡ false
    → Diverge key old
unfolding bytes_eq
IsKey-Diverge true [] [] h k d = cc
IsKey-Diverge true [] (y ∷ ys) h k d = absurd k
IsKey-Diverge true (x ∷ xs) old h k d = absurd h
IsKey-Diverge false [] old h k d = absurd h
IsKey-Diverge false (x ∷ xs) [] h k d = absurd k
IsKey-Diverge false (x ∷ xs) (y ∷ ys) h k d = elim (Bool-cases (x == y)) [
  | inl t ↦
      let p : y ≡ x = sym ((==_iff x y).0 t) in
      rw p (
        grow x xs ys (
          IsKey-Diverge (x == 16) xs ys h.1 (rw p at k.1)
            (let d' : (if true then bytes_eq xs ys else false) ≡ false = rw t at d in d')))
  | inr t ↦ diverge [] x y xs ys refl refl t (unfold prefix_len in rw t refl)
]

pub not_end : (k : ℕ) → k < 16 → (k == 16) ≡ false
not_end k h = ground arith

-- a key goes through a path, or parts from it
pub data Through (path key : Bytes) : Type 0 where
  through :
      (rest : Bytes)
      → key ≡ path ++ rest
      → IsKey false rest
      → prefix_len key path ≡ length path
      → Through path key
  parts : Diverge key path → Through path key

pub same_nat : (k : ℕ) → (k == k) ≡ true
same_nat k = ground arith

pub apart_sym : (a b : ℕ) → (a == b) ≡ false → (b == a) ≡ false
apart_sym a b h = ground (arith, h)

prefix_len-nil : (key : Bytes) → prefix_len key [] ≡ 0
unfolding prefix_len
prefix_len-nil [] = refl
prefix_len-nil (k ∷ key) = refl

longer_path : (k : ℕ) (path key : Bytes) → Through path key → Through (k ∷ path) (k ∷ key)
unfolding prefix_len
longer_path k path key (through rest p h len) =
    through rest (ap (λ t. k ∷ t) p) h (rw (same_nat k) (ap suc len))
longer_path k path key (parts d) = parts (grow k key path d)

pub path_cases : (path key : Bytes) → IsNibbles path → IsKey false key → Through path key
path_cases [] key p h = through key refl h (prefix_len-nil key)
path_cases (k ∷ path) [] p h = absurd h
path_cases (k ∷ path) (j ∷ key) p h = elim (Bool-cases (j == k)) [
  | inl t ↦
      let e : j ≡ k = (==_iff j k).0 t in
      rw e (
        longer_path k path key (
          path_cases path key p.1
            (let u : (j == 16) ≡ false = rw e (not_end k p.0) in rw u at h.1)))
  | inr t ↦ parts (diverge [] j k key path refl refl t (unfold prefix_len in rw t refl))
]

pub nibble : (k : ℕ) → k < 17 → (k == 16) ≡ false → k < 16
nibble k h e = ground arith

pub record BehindPath (e : Bool) (common : Bytes) (a : ℕ) (x : Bytes) : Type 0 where
  pub open_end : e ≡ false
  pub path : IsNibbles common
  pub head : a < 17
  pub rest : IsKey (a == 16) x

pub IsKey-append :
    (e : Bool) (common : Bytes) (a : ℕ) (x : Bytes)
    → IsKey e (common ++ a ∷ x)
    → BehindPath e common a x
IsKey-append true [] a x h = absurd h
IsKey-append false [] a x h = record { open_end = refl; path = tt; head = h.0; rest = h.1 }
IsKey-append true (k ∷ common) a x h = absurd h
IsKey-append false (k ∷ common) a x h =
    let b = IsKey-append (k == 16) common a x h.1 in
    record {
      open_end = refl;
      path = (nibble k h.0 b.open_end, b.path);
      head = b.head;
      rest = b.rest;
    }

pub IsKey-path : (path key : Bytes) → IsNibbles path → IsKey false (path ++ key) → IsKey false key
IsKey-path [] key p h = h
IsKey-path (k ∷ path) key p h =
    let t : (k == 16) ≡ false = not_end k p.0 in IsKey-path path key p.1 (rw t at h.1)

pub strip-append : (p key : Bytes) → strip p (p ++ key) ≡ some key
unfolding strip
strip-append [] key = refl
strip-append (k ∷ p) key = let t : (k == k) ≡ true = ground arith in rw t (strip-append p key)

pub strip-some : (p key rest : Bytes) → strip p key ≡ some rest → key ≡ p ++ rest
unfolding strip
strip-some [] key rest h = some-eq h
strip-some (k ∷ p) [] rest h = cc
strip-some (k ∷ p) (j ∷ key) rest h = elim (Bool-cases (k == j)) [
  | inl t ↦
      let e : j ≡ k = sym ((==_iff k j).0 t) in
      let h' : strip p key ≡ some rest = rw t at h in rw (e, ← strip-some p key rest h') refl
  | inr t ↦ let h' : none ≡ some rest = rw t at h in cc
]

pub strip-none : (p key rest : Bytes) → strip p key ≡ none → bytes_eq key (p ++ rest) ≡ false
unfolding bytes_eq strip
strip-none [] key rest h = cc
strip-none (k ∷ p) [] rest h = refl
strip-none (k ∷ p) (j ∷ key) rest h = elim (Bool-cases (k == j)) [
  | inl t ↦ let u : (j == k) ≡ true = ground (arith, t) in rw u (strip-none p key rest (rw t at h))
  | inr t ↦ let u : (j == k) ≡ false = ground (arith, t) in rw u refl
]

pub bytes_eq-append : (p a b : Bytes) → bytes_eq (p ++ a) (p ++ b) ≡ bytes_eq a b
unfolding bytes_eq
bytes_eq-append [] a b = refl
bytes_eq-append (k ∷ p) a b = let t : (k == k) ≡ true = ground arith in rw t (bytes_eq-append p a b)

module _ (p : Bytes) (a : ℕ) (x : Bytes) where
  pub get_elem?-append : get_elem? (p ++ a ∷ x) (length p) ≡ some a
  get_elem?-append = go p
    where
      go : (p : Bytes) → get_elem? (p ++ a ∷ x) (length p) ≡ some a
      go [] = refl
      go (k ∷ p) = go p

  pub take-append : take (length p) (p ++ a ∷ x) ≡ p
  take-append = go p
    where
      go : (p : Bytes) → take (length p) (p ++ a ∷ x) ≡ p
      go [] = refl
      go (k ∷ p) = ap (λ t. k ∷ t) (go p)

  pub drop-append : drop (suc (length p)) (p ++ a ∷ x) ≡ x
  drop-append = go p
    where
      go : (p : Bytes) → drop (suc (length p)) (p ++ a ∷ x) ≡ x
      go [] = refl
      go (k ∷ p) = go p

pub drop-append_self : (p x : Bytes) → drop (length p) (p ++ x) ≡ x
drop-append_self [] x = refl
drop-append_self (k ∷ p) x = drop-append_self p x

pub take-append_self : (p x : Bytes) → take (length p) (p ++ x) ≡ p
take-append_self [] x = refl
take-append_self (k ∷ p) x = ap (λ t. k ∷ t) (take-append_self p x)

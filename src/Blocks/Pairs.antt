-- ===== src/Blocks/Pairs.antt =====
-- The processed mini-blocks as a set of pairs: what each operation means for it.
use elrond_go.Prelude.{
  ◌≡◌, refl, sym, ap, ◌∙◌, inl, inr, Bool, true, false, Option, none, some, List, [], ◌∷◌, arith,
  if◌then◌else◌, Bool-cases,
}
use elrond_go.Prelude.Bytes.{Bytes, bytes_eq, bytes_eq_iff}
use elrond_go.Prelude.Keyed.{
  is_in, lookup_at, DistinctKeys, lookup_at-insert_at, lookup_at-delete_at, DistinctKeys-insert_at,
  DistinctKeys-delete_at,
}
use elrond_go.Blocks.Processed.{
  ProcessedMiniBlocks, with_key, without_key, added_to, add_processed_mini_block, keep_filled,
  remove_processed_mini_block, remove_all_processed_mini_blocks, apply_processed_mini_blocks,
  is_processed_in, is_mini_block_processed,
}

-- the operations of the shard processor on the map
pub data Op : Type 0 where
  add : Bytes → Bytes → Op
  remove : Bytes → Op
  remove_all : Bytes → Op
  replace_by : ProcessedMiniBlocks → Op

unfoldable pub step : Op → ProcessedMiniBlocks → ProcessedMiniBlocks
step (add meta b) s = add_processed_mini_block meta b s
step (remove b) s = remove_processed_mini_block b s
step (remove_all meta) s = remove_all_processed_mini_blocks meta s
step (replace_by ps) s = apply_processed_mini_blocks ps s

-- the operations in their order
unfoldable pub run : List Op → ProcessedMiniBlocks → ProcessedMiniBlocks
run [] s = s
run (o ∷ os) s = run os (step o s)

-- a set of pairs of a meta block and a mini-block, with no map and no order
abbrev pub Pairs : Type 0
Pairs = Bytes → Bytes → Bool

unfoldable pub replaced : Option (List Bytes) → Bytes → Bool → Bool
replaced none b old = old
replaced (some bs) b old = is_in b bs

unfoldable pub pairs_step : Op → Pairs → Pairs
pairs_step (add meta b) p m c =
    if bytes_eq meta m then (if bytes_eq b c then true else p m c) else p m c
pairs_step (remove b) p m c = if bytes_eq b c then false else p m c
pairs_step (remove_all meta) p m c = if bytes_eq meta m then false else p m c
pairs_step (replace_by ps) p m c = replaced (lookup_at m ps) c (p m c)

unfoldable pub pairs_run : List Op → Pairs → Pairs
pairs_run [] p = p
pairs_run (o ∷ os) p = pairs_run os (pairs_step o p)

is_in-with_key :
    (c b : Bytes) (bs : List Bytes)
    → is_in c (with_key b bs) ≡ (if bytes_eq b c then true else is_in c bs)
unfolding with_key is_in
is_in-with_key c b bs = elim (Bool-cases (is_in b bs)) [
  | inr t ↦ rw t refl
  | inl t ↦ rw t (elim (Bool-cases (bytes_eq b c)) [
    | inr u ↦ rw u refl
    | inl u ↦ rw u (ap (λ x. is_in x bs) (sym ((bytes_eq_iff b c).0 u)) ∙ t)
  ])
]

is_in-without_key :
    (c b : Bytes) (bs : List Bytes)
    → is_in c (without_key b bs) ≡ (if bytes_eq b c then false else is_in c bs)
unfolding without_key is_in
is_in-without_key c b [] = ground arith
is_in-without_key c b (x ∷ xs) =
    ground (arith, bytes_eq_iff x b, bytes_eq_iff x c, bytes_eq_iff b c, is_in-without_key c b xs)

is_processed_in-added_to :
    (c b : Bytes) (o : Option (List Bytes))
    → is_processed_in c (some (added_to b o)) ≡ (if bytes_eq b c then true else is_processed_in c o)
unfolding is_processed_in added_to
is_processed_in-added_to c b none = unfold is_in in refl
is_processed_in-added_to c b (some bs) = is_in-with_key c b bs

is_mini_block_processed-keep_filled :
    (m meta : Bytes) (bs : List Bytes) (rest : ProcessedMiniBlocks)
    → lookup_at meta rest ≡ none
    → (c : Bytes)
    → is_mini_block_processed m c (keep_filled meta bs rest)
      ≡ (if bytes_eq meta m then is_in c bs else is_mini_block_processed m c rest)
unfolding is_mini_block_processed keep_filled is_processed_in lookup_at
is_mini_block_processed-keep_filled m meta [] rest e c = elim (Bool-cases (bytes_eq meta m)) [
  | inl t ↦ rw t (
      ap (λ x. is_processed_in c (lookup_at x rest)) (sym ((bytes_eq_iff meta m).0 t))
      ∙ ap (is_processed_in c) e
      ∙ (unfold is_in in refl))
  | inr t ↦ rw t refl
]
is_mini_block_processed-keep_filled m meta (x ∷ xs) rest e c = elim (Bool-cases (bytes_eq meta m)) [
  | inl t ↦ rw t refl
  | inr t ↦ rw t refl
]

lookup_at-keep_filled :
    (m meta : Bytes) (bs : List Bytes) (rest : ProcessedMiniBlocks)
    → bytes_eq meta m ≡ false
    → lookup_at m (keep_filled meta bs rest) ≡ lookup_at m rest
unfolding keep_filled lookup_at
lookup_at-keep_filled m meta [] rest t = refl
lookup_at-keep_filled m meta (x ∷ xs) rest t = rw t refl

lookup_at-remove :
    (b m : Bytes) (s : ProcessedMiniBlocks)
    → lookup_at m s ≡ none
    → lookup_at m (remove_processed_mini_block b s) ≡ none
unfolding lookup_at remove_processed_mini_block
lookup_at-remove b m [] e = refl
lookup_at-remove b m ((meta, bs) ∷ s) e = elim (Bool-cases (bytes_eq meta m)) [
  | inl t ↦ let q = rw t at e in cc
  | inr t ↦
      lookup_at-keep_filled m meta (without_key b bs) (remove_processed_mini_block b s) t
      ∙ lookup_at-remove b m s (rw t at e)
]

DistinctKeys-keep_filled :
    (meta : Bytes) (bs : List Bytes) (rest : ProcessedMiniBlocks)
    → lookup_at meta rest ≡ none
    → DistinctKeys rest
    → DistinctKeys (keep_filled meta bs rest)
unfolding keep_filled
DistinctKeys-keep_filled meta [] rest e d = d
DistinctKeys-keep_filled meta (x ∷ xs) rest e d = (e, d)

DistinctKeys-remove :
    (b : Bytes) (s : ProcessedMiniBlocks)
    → DistinctKeys s
    → DistinctKeys (remove_processed_mini_block b s)
unfolding remove_processed_mini_block
DistinctKeys-remove b [] d = tt
DistinctKeys-remove b ((meta, bs) ∷ s) d =
    DistinctKeys-keep_filled meta (without_key b bs) (remove_processed_mini_block b s)
      (lookup_at-remove b meta s d.0) (DistinctKeys-remove b s d.1)

DistinctKeys-apply :
    (ps s : ProcessedMiniBlocks) → DistinctKeys s → DistinctKeys (apply_processed_mini_blocks ps s)
unfolding apply_processed_mini_blocks
DistinctKeys-apply [] s d = d
DistinctKeys-apply ((meta, bs) ∷ ps) s d =
    DistinctKeys-insert_at meta bs (apply_processed_mini_blocks ps s) (DistinctKeys-apply ps s d)

DistinctKeys-step : (o : Op) (s : ProcessedMiniBlocks) → DistinctKeys s → DistinctKeys (step o s)
unfolding step add_processed_mini_block remove_all_processed_mini_blocks
DistinctKeys-step (add meta b) s d = DistinctKeys-insert_at meta (added_to b (lookup_at meta s)) s d
DistinctKeys-step (remove b) s d = DistinctKeys-remove b s d
DistinctKeys-step (remove_all meta) s d = DistinctKeys-delete_at meta s d
DistinctKeys-step (replace_by ps) s d = DistinctKeys-apply ps s d

-- the map as a set of pairs
abbrev pub view : ProcessedMiniBlocks → Pairs
view s m c = is_mini_block_processed m c s

view-add :
    (meta b : Bytes) (s : ProcessedMiniBlocks) (m c : Bytes)
    → view (add_processed_mini_block meta b s) m c ≡ pairs_step (add meta b) (view s) m c
unfolding add_processed_mini_block is_mini_block_processed pairs_step
view-add meta b s m c =
    ap (is_processed_in c) (lookup_at-insert_at m meta (added_to b (lookup_at meta s)) s)
    ∙ elim (Bool-cases (bytes_eq meta m)) [
      | inl t ↦ rw t (
          is_processed_in-added_to c b (lookup_at meta s)
          ∙ ap (λ x. if bytes_eq b c then true else is_processed_in c (lookup_at x s))
              ((bytes_eq_iff meta m).0 t))
      | inr t ↦ rw t refl
    ]

view-cons_hit :
    (meta : Bytes) (bs : List Bytes) (s : ProcessedMiniBlocks) (m c : Bytes)
    → bytes_eq meta m ≡ true
    → view ((meta, bs) ∷ s) m c ≡ is_in c bs
unfolding is_mini_block_processed lookup_at is_processed_in
view-cons_hit meta bs s m c t = rw t refl

view-cons_miss :
    (meta : Bytes) (bs : List Bytes) (s : ProcessedMiniBlocks) (m c : Bytes)
    → bytes_eq meta m ≡ false
    → view ((meta, bs) ∷ s) m c ≡ view s m c
unfolding is_mini_block_processed lookup_at is_processed_in
view-cons_miss meta bs s m c t = rw t refl

view-remove :
    (b : Bytes) (s : ProcessedMiniBlocks) (m c : Bytes)
    → DistinctKeys s
    → view (remove_processed_mini_block b s) m c ≡ pairs_step (remove b) (view s) m c
unfolding remove_processed_mini_block pairs_step
view-remove b [] m c d = elim (Bool-cases (bytes_eq b c)) [
  | inl t ↦ rw t (unfold is_mini_block_processed is_processed_in lookup_at in refl)
  | inr t ↦ rw t refl
]
view-remove b ((meta, bs) ∷ s) m c d =
    is_mini_block_processed-keep_filled m meta (without_key b bs) (remove_processed_mini_block b s)
      (lookup_at-remove b meta s d.0) c
    ∙ elim (Bool-cases (bytes_eq meta m)) [
      | inl t ↦ rw (t, view-cons_hit meta bs s m c t) (is_in-without_key c b bs)
      | inr t ↦ rw (t, view-cons_miss meta bs s m c t) (view-remove b s m c d.1)
    ]

view-remove_all :
    (meta : Bytes) (s : ProcessedMiniBlocks) (m c : Bytes)
    → view (remove_all_processed_mini_blocks meta s) m c ≡ pairs_step (remove_all meta) (view s) m c
unfolding remove_all_processed_mini_blocks is_mini_block_processed pairs_step is_processed_in
view-remove_all meta s m c =
    ap (is_processed_in c) (lookup_at-delete_at m meta s)
    ∙ elim (Bool-cases (bytes_eq meta m)) [ inl t ↦ rw t refl | inr t ↦ rw t refl ]

view-apply :
    (ps s : ProcessedMiniBlocks) (m c : Bytes)
    → view (apply_processed_mini_blocks ps s) m c ≡ pairs_step (replace_by ps) (view s) m c
unfolding apply_processed_mini_blocks is_mini_block_processed pairs_step is_processed_in lookup_at
    replaced
view-apply [] s m c = refl
view-apply ((meta, bs) ∷ ps) s m c =
    ap (is_processed_in c) (lookup_at-insert_at m meta bs (apply_processed_mini_blocks ps s))
    ∙ elim (Bool-cases (bytes_eq meta m)) [ inl t ↦ rw t refl | inr t ↦ rw t (view-apply ps s m c) ]

view-step :
    (o : Op) (s : ProcessedMiniBlocks) (m c : Bytes)
    → DistinctKeys s
    → view (step o s) m c ≡ pairs_step o (view s) m c
unfolding step
view-step (add meta b) s m c d = view-add meta b s m c
view-step (remove b) s m c d = view-remove b s m c d
view-step (remove_all meta) s m c d = view-remove_all meta s m c
view-step (replace_by ps) s m c d = view-apply ps s m c

pairs_step_cong :
    (o : Op) (p q : Pairs)
    → ((m c : Bytes) → p m c ≡ q m c)
    → (m c : Bytes) → pairs_step o p m c ≡ pairs_step o q m c
unfolding pairs_step
pairs_step_cong (add meta b) p q h m c = rw (h m c) refl
pairs_step_cong (remove b) p q h m c = rw (h m c) refl
pairs_step_cong (remove_all meta) p q h m c = rw (h m c) refl
pairs_step_cong (replace_by ps) p q h m c = rw (h m c) refl

view-run :
    (os : List Op) (s : ProcessedMiniBlocks) (p : Pairs)
    → DistinctKeys s
    → ((m c : Bytes) → view s m c ≡ p m c)
    → (m c : Bytes) → view (run os s) m c ≡ pairs_run os p m c
unfolding run pairs_run
view-run [] s p d h m c = h m c
view-run (o ∷ os) s p d h m c =
    view-run os (step o s) (pairs_step o p) (DistinctKeys-step o s d)
      (λ a b. view-step o s a b d ∙ pairs_step_cong o (view s) p h a b) m c

-- After any operations on the map of the processed mini-blocks, from the empty one, the test
-- isMiniBlockProcessed answers as the set of pairs that the operations describe.
pub run-Pairs :
    (os : List Op) (m c : Bytes)
    → is_mini_block_processed m c (run os []) ≡ pairs_run os (λ _ _. false) m c
unfolding is_mini_block_processed lookup_at is_processed_in
run-Pairs os m c = view-run os [] (λ _ _. false) tt (λ a b. refl) m c

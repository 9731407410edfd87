-- ===== src/Blocks/Proposed.antt =====
-- The meta headers that a new block uses, against the checks of the nodes that process it.
use elrond_go.Prelude.{
  ℕ, ◌≡◌, refl, ◌∙◌, ◌<◌, inl, inr, Bool, true, false, Option, none, some, List, [], ◌∷◌, arith,
  ltb, if◌then◌else◌, Bool-cases, map, length,
}
use elrond_go.Prelude.Bytes.{Bytes, bytes_eq, bytes_eq_iff}
use elrond_go.Prelude.Keyed.{is_in, lookup_at, insert_at, lookup_at-insert_at}
use elrond_go.Prelude.Maps.{All}
use elrond_go.Blocks.Types.{Error, Header, Codec, get_mini_block_headers_with_dst}
use elrond_go.Prelude.Int.{two64}
use elrond_go.Blocks.Validity.{is_hdr_construction_valid}
use elrond_go.Blocks.Notarized.{sort_by_nonce}
use elrond_go.Blocks.Finality.{is_nil, check_meta_hdr_finality, check_used}
use elrond_go.Blocks.Processed.{ProcessedMiniBlocks}
use elrond_go.Blocks.Current.{HdrInfo, is_empty}
use elrond_go.Blocks.Requested.{NoRepeats}
use elrond_go.Blocks.Create.{
  Created, Creation, use_header, use_if_added, add_created, with_last, is_full, is_next, has_space,
  create_for, create_cross, first_creation,
}
use elrond_go.Blocks.Used.{
  used_headers, Valid, Valid-append, check_used-Valid, sort_by_nonce-Valid, used_headers-insert_at,
  nothing,
}

-- the hashes of the meta blocks that are left have no entry
abbrev Unused : List (Bytes × Header) → List (Bytes × HdrInfo) → Type 0
Unused later m = (k : Bytes) → is_in k (map (λ x. x.0) later) ≡ true → lookup_at k m ≡ none

Unused-later :
    (k : Bytes) (h : Header) (later : List (Bytes × Header)) (m : List (Bytes × HdrInfo))
    → Unused ((k, h) ∷ later) m
    → Unused later m
Unused-later k h later m u j t = u j (unfold is_in in ground (arith, t))

Unused-insert_at :
    (k : Bytes) (h : Header) (v : HdrInfo) (later : List (Bytes × Header))
    (m : List (Bytes × HdrInfo))
    → is_in k (map (λ x. x.0) later) ≡ false
    → Unused ((k, h) ∷ later) m
    → Unused later (insert_at k v m)
Unused-insert_at k h v later m n u j t =
    let ne : bytes_eq k j ≡ false = elim (Bool-cases (bytes_eq k j)) [
      | inl w ↦ let q = (bytes_eq_iff k j).0 w in let r = rw q at n in cc
      | inr w ↦ w
    ] in
    lookup_at-insert_at j k v m ∙ rw ne (Unused-later k h later m u j t)

first-Unused :
    (k : Bytes) (h : Header) (later : List (Bytes × Header)) (m : List (Bytes × HdrInfo))
    → Unused ((k, h) ∷ later) m
    → lookup_at k m ≡ none
first-Unused k h later m u = u k (unfold is_in in rw ((bytes_eq_iff k k).1 refl) refl)

is_nil-none : (o : Option Error) → is_nil o ≡ true → o ≡ none
unfolding is_nil
is_nil-none none e = refl
is_nil-none (some x) e = cc

module _ {W : Type 0} (c : Codec) (self_id finality max_items : ℕ) (done : ProcessedMiniBlocks)
    (has_time : ℕ → Bool) (create : Header → List Bytes → ℕ → ℕ → W → Created × W) where
  is_next-valid :
      (h : Header) (later : List (Bytes × Header)) (s : Creation W)
      → is_next c self_id finality max_items done has_time create h later s ≡ true
      → is_hdr_construction_valid c h (some s.last) ≡ none
  unfolding is_next
  is_next-valid h later s e =
      elim (Bool-cases (is_nil (is_hdr_construction_valid c h (some s.last)))) [
        | inl t ↦ is_nil-none _ t
        | inr t ↦ let q = rw t at e in cc
      ]

  add_created-some :
      (k : Bytes) (h : Header) (r : Created × W) (s : Creation W)
      → ltb 0 r.0.txs ≡ true
      → (add_created k h r s).infos
        ≡ insert_at k (record { used_in_block = true; hdr = some h }) s.infos
  unfolding add_created use_if_added use_header
  add_created-some k h (r, w) s t = rw t refl

  add_created-none :
      (k : Bytes) (h : Header) (r : Created × W) (s : Creation W)
      → ltb 0 r.0.txs ≡ false
      → (add_created k h r s).infos ≡ s.infos
  unfolding add_created use_if_added
  add_created-none k h (r, w) s t = rw t refl

  -- where the coordinator is called for the meta block and finishes it, it brings a transaction
  unfoldable pub Brings : Bytes × Header → Type 0
  Brings (k, h) =
      (s : Creation W)
      → is_empty (get_mini_block_headers_with_dst self_id h.content) ≡ false
      → has_space c self_id finality max_items done has_time create s ≡ true
      → (create_for c self_id finality max_items done has_time create k h s).0.is_finished ≡ true
      → ltb 0 (create_for c self_id finality max_items done has_time create k h s).0.txs ≡ true

  module _ (h0 : Header) where
    grown :
        (k : Bytes) (h : Header) (s : Creation W)
        → lookup_at k s.infos ≡ none
        → Valid c h0 (used_headers s.infos) s.last
        → is_hdr_construction_valid c h (some s.last) ≡ none
        → Valid c h0
            (used_headers (insert_at k (record { used_in_block = true; hdr = some h }) s.infos))
            h
    grown k h s u v e =
        rw (used_headers-insert_at k h s.infos u)
          (Valid-append c h0 s.last h (used_headers s.infos) v e)

    -- the headers that are used are a chain of valid successors
    Lawful : Creation W → Type 0
    Lawful s = (l : Header) × Valid c h0 (used_headers s.infos) l

    either-Lawful :
        (t : Bool) (x y : Creation W)
        → (t ≡ true → Lawful x)
        → Lawful y
        → Lawful (if t then x else y)
    either-Lawful true x y f g = f refl
    either-Lawful false x y f g = g

    added-Lawful :
        (k : Bytes) (h : Header) (r : Created × W) (s : Creation W)
        → Valid c h0 (used_headers s.infos) s.last
        → Valid c h0
            (used_headers (insert_at k (record { used_in_block = true; hdr = some h }) s.infos))
            h
        → Lawful (add_created k h r s)
    unfolding Lawful
    added-Lawful k h r s v g = elim (Bool-cases (ltb 0 r.0.txs)) [
      | inl y ↦ (h, rw (add_created-some k h r s y) g)
      | inr y ↦ (s.last, rw (add_created-none k h r s y) v)
    ]

    create_cross-Valid :
        (metas : List (Bytes × Header)) (s : Creation W)
        → All Brings metas
        → NoRepeats (map (λ x. x.0) metas)
        → Unused metas s.infos
        → Valid c h0 (used_headers s.infos) s.last
        → Lawful (create_cross c self_id finality max_items done has_time create metas s)
    unfolding create_cross with_last Lawful Brings
    create_cross-Valid [] s m n u v = (s.last, v)
    create_cross-Valid ((k, h) ∷ later) s m n u v =
        let info : HdrInfo = record { used_in_block = true; hdr = some h } in
        let free = first-Unused k h later s.infos u in
        let u' = Unused-later k h later s.infos u in
        let passed = create_cross-Valid later s m.1 n.1 u' v in
        let r = create_for c self_id finality max_items done has_time create k h s in
        elim (Bool-cases
          (is_full c self_id finality max_items done has_time create (length later) s)) [
            | inl t ↦ rw t (s.last, v)
            | inr t ↦
                elim (Bool-cases
                  (is_next c self_id finality max_items done has_time create h later s)) [
                    | inr a ↦ rw (t, a) passed
                    | inl a ↦
                        let e = is_next-valid h later s a in
                        let g = grown k h s free v e in
                        let w = Unused-insert_at k h info later s.infos n.0 u in
                        elim (Bool-cases
                          (is_empty (get_mini_block_headers_with_dst self_id h.content))) [
                            | inl b ↦
                                rw (t, a, b)
                                  (create_cross-Valid later (with_last h (use_header k h s)) m.1 n.1
                                    (unfold use_header in w) (unfold use_header in g))
                            | inr b ↦
                                elim (Bool-cases
                                  (has_space c self_id finality max_items done has_time create s)) [
                                    | inr d ↦ rw (t, a, b, d) passed
                                    | inl d ↦
                                        let finished : r.0.is_finished ≡ true
                                            → Lawful (
                                                create_cross c self_id finality max_items done
                                                  has_time create later
                                                  (with_last h (add_created k h r s))) =
                                          λ f.
                                            let x = add_created-some k h r s (m.0 s b d f) in
                                            create_cross-Valid later
                                              (with_last h (add_created k h r s)) m.1 n.1 (rw x w)
                                              (rw x g) in
                                        rw (t, a, b, d)
                                          (either-Lawful r.0.is_finished _ _ finished
                                            (added-Lawful k h r s v g))
                                  ]
                          ]
                  ]
          ]

    pub check_used-create_cross :
        (metas : List (Bytes × Header)) (attesting : List Header) (w : W)
        → All Brings metas
        → NoRepeats (map (λ x. x.0) metas)
        → h0.nonce < two64
        → (l : Header) × Valid c h0
            (used_headers
              (create_cross c self_id finality max_items done has_time create metas
                (first_creation h0 w)).infos)
            l
          × (check_used c finality attesting
                (sort_by_nonce (
                  used_headers
                    (create_cross c self_id finality max_items done has_time create metas
                      (first_creation h0 w)).infos))
                h0
              ≡ check_meta_hdr_finality c finality (some l) attesting)
    unfolding Lawful first_creation
    check_used-create_cross metas attesting w m n b =
        let r =
          create_cross-Valid metas (first_creation h0 w) m n (λ k e. unfold lookup_at in refl)
            (unfold used_headers in nothing) in
        (
          r.0,
          r.1,
          rw (sort_by_nonce-Valid c h0 r.0 _ b r.1)
              (check_used-Valid c finality attesting h0 r.0 _ r.1),
        )

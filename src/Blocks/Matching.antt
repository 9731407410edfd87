-- ===== src/Blocks/Matching.antt =====
-- baseProcess.go: the headers that createMiniBlockHeaders makes pass checkHeaderBodyCorrelation.
use elrond_go.Prelude.{
  ℕ, suc, ◌≡◌, refl, sym, ap, ◌∙◌, inl, inr, none, some, List, [], ◌∷◌, Bool-cases, Option-cases,
  length, some-eq,
}
use mathlib.Core.Path.{subst}
use elrond_go.Prelude.Bytes.{Bytes, bytes_eq, bytes_eq_iff}
use elrond_go.Prelude.Maps.{All, All-map}
use elrond_go.Blocks.Types.{
  Result, ok, ok-eq, err, MiniBlock, MiniBlockHeader, Codec, mini_block_hash,
}
use elrond_go.Blocks.Correlation.{
  Matched, add_header, check_header_body_correlation, check_header_body_correlation-Matched,
  create_mini_block_headers, header_of, mb_hashes_from_hdr,
}

module _ (c : Codec) where
  -- the headers of a body, one for each mini-block
  data Made : List MiniBlock → List MiniBlockHeader → Type 0 where
    nothing : Made [] []
    made :
        {mb : MiniBlock} {body : List MiniBlock} {hs : List MiniBlockHeader} {x : Bytes}
        → mini_block_hash c mb ≡ ok x
        → Made body hs
        → Made (mb ∷ body) (header_of x mb ∷ hs)

  add_header-Made :
      (mb : MiniBlock) (body : List MiniBlock) (r : Result Bytes)
      (rest : Result (ℕ × List MiniBlockHeader)) (n : ℕ) (hs : List MiniBlockHeader)
      → mini_block_hash c mb ≡ r
      → ((n' : ℕ) (hs' : List MiniBlockHeader) → rest ≡ ok (n', hs') → Made body hs')
      → add_header r mb rest ≡ ok (n, hs)
      → Made (mb ∷ body) hs
  unfolding add_header
  add_header-Made mb body (err x) rest n hs h k e = cc
  add_header-Made mb body (ok x) (err y) n hs h k e = cc
  add_header-Made mb body (ok x) (ok (n', hs')) n hs h k e =
      let p : header_of x mb ∷ hs' ≡ hs = ap (λ q. q.1) (ok-eq e) in
      subst (Made (mb ∷ body)) p (made h (k n' hs' refl))

  create_mini_block_headers-Made :
      (body : List MiniBlock) (n : ℕ) (hs : List MiniBlockHeader)
      → create_mini_block_headers c body ≡ ok (n, hs)
      → Made body hs
  unfolding create_mini_block_headers
  create_mini_block_headers-Made [] n hs e = subst (Made []) (ap (λ q. q.1) (ok-eq e)) nothing
  create_mini_block_headers-Made (mb ∷ body) n hs e =
      add_header-Made mb body (mini_block_hash c mb) (create_mini_block_headers c body) n hs refl
        (λ n' hs' k. create_mini_block_headers-Made body n' hs' k) e

  Made-length :
      (body : List MiniBlock) (hs : List MiniBlockHeader) → Made body hs → length hs ≡ length body
  Made-length _ _ nothing = refl
  Made-length _ _ (made {body = b} {hs = hs} e m) = ap suc (Made-length b hs m)

  -- a header that is found is of a mini-block with that hash
  header_came_from :
      (body : List MiniBlock) (hs : List MiniBlockHeader) (x : Bytes) (h : MiniBlockHeader)
      → Made body hs
      → mb_hashes_from_hdr hs x ≡ some h
      → (mb : MiniBlock) × (mini_block_hash c mb ≡ ok x) × (h ≡ header_of x mb)
  unfolding mb_hashes_from_hdr header_of
  header_came_from _ _ x h nothing f = cc
  header_came_from _ _ x h (made {mb = mb} {body = body} {hs = hs} {x = y} e m) f =
      elim (Option-cases (mb_hashes_from_hdr hs x)) [
        | inr (l, t) ↦ header_came_from body hs x h m (t ∙ (rw (t, mb_hashes_from_hdr) at f))
        | inl t ↦ elim (Bool-cases (bytes_eq y x)) [
          | inl u ↦
              let p : y ≡ x = (bytes_eq_iff y x).0 u in
              let q = some-eq (rw (t, u, mb_hashes_from_hdr) at f) in
              (mb, e ∙ ap ok p, sym q ∙ ap (λ b. header_of b mb) p)
          | inr u ↦ let q = rw (t, u, mb_hashes_from_hdr) at f in cc
        ]
      ]

  record Found (hs : List MiniBlockHeader) (mb : MiniBlock) : Type 0 where
    hash : Bytes
    header : MiniBlockHeader
    hashed : mini_block_hash c mb ≡ ok hash
    found : mb_hashes_from_hdr hs hash ≡ some header

  Found-later :
      (h : MiniBlockHeader) (hs : List MiniBlockHeader) (mb : MiniBlock)
      → Found hs mb
      → Found (h ∷ hs) mb
  Found-later h hs mb f = record {
    hash = f.hash;
    header = f.header;
    hashed = f.hashed;
    found = unfold mb_hashes_from_hdr in rw f.found refl;
  }

  Found-here :
      (hs : List MiniBlockHeader) (mb : MiniBlock) (x : Bytes)
      → mini_block_hash c mb ≡ ok x
      → Found (header_of x mb ∷ hs) mb
  unfolding mb_hashes_from_hdr header_of
  Found-here hs mb x e = elim (Option-cases (mb_hashes_from_hdr hs x)) [
    | inl t ↦ record {
      hash = x;
      header = header_of x mb;
      hashed = e;
      found = rw (t, (bytes_eq_iff x x).1 refl, mb_hashes_from_hdr) refl;
    }
    | inr (l, t) ↦ record {
      hash = x;
      header = l;
      hashed = e;
      found = rw (t, mb_hashes_from_hdr) refl;
    }
  ]

  Made-Found :
      (body : List MiniBlock) (hs : List MiniBlockHeader) → Made body hs → All (Found hs) body
  Made-Found _ _ nothing = tt
  Made-Found _ _ (made {mb = mb} {body = body} {hs = hs} {x = x} e m) = (
    Found-here hs mb x e,
    All-map (Found hs) (Found (header_of x mb ∷ hs)) (Found-later (header_of x mb) hs) body
        (Made-Found body hs m),
  )

  module _
      (tells_apart : (a b : MiniBlock) (x : Bytes)
        → mini_block_hash c a ≡ ok x
        → mini_block_hash c b ≡ ok x
        → a ≡ b) where
    Found-Matched :
        (body : List MiniBlock) (hs : List MiniBlockHeader)
        → Made body hs
        → (mb : MiniBlock) → Found hs mb
        → Matched c hs mb
    Found-Matched body hs m mb f =
        let p = header_came_from body hs f.hash f.header m f.found in
        let q : p.0 ≡ mb = tells_apart p.0 mb f.hash p.1 f.hashed in
        let r : f.header ≡ header_of f.hash mb = p.2 ∙ ap (header_of f.hash) q in
        record {
          hash = f.hash;
          header = f.header;
          hashed = f.hashed;
          found = f.found;
          counted = unfold header_of in ap (λ h. h.tx_count) r;
          received = unfold header_of in ap (λ h. h.receiver_shard_id) r;
          sent = unfold header_of in ap (λ h. h.sender_shard_id) r;
        }

    -- Where the hashes of two mini-blocks are equal only for equal mini-blocks, the headers that
    -- createMiniBlockHeaders makes of a body pass checkHeaderBodyCorrelation with that body.
    pub check_header_body_correlation-create_mini_block_headers :
        (body : List MiniBlock) (n : ℕ) (hs : List MiniBlockHeader)
        → create_mini_block_headers c body ≡ ok (n, hs)
        → check_header_body_correlation c hs body ≡ none
    check_header_body_correlation-create_mini_block_headers body n hs e =
        let m = create_mini_block_headers-Made body n hs e in
        (check_header_body_correlation-Matched c hs body).1 (
          Made-length body hs m,
          All-map (Found hs) (Matched c hs) (Found-Matched body hs m) body (Made-Found body hs m),
        )

-- ===== src/Blocks/Ledger.antt =====
-- The chain that CommitBlock builds.
use elrond_go.Prelude.{
  ◌≡◌, refl, sym, ap, ◌∙◌, inl, inr, Option, none, some, List, [], ◌∷◌, arith, Bool-cases, map,
}
use elrond_go.Prelude.Bytes.{Bytes, bytes_eq_iff}
use elrond_go.Accounts.Types.{Storage}
use elrond_go.Blocks.Types.{Error, Result, ok, err, MiniBlock, Header, is_shard_content, Codec}
use elrond_go.Blocks.Validity.{
  Chain, check_for_nils, check_first, check_against, check_block_validity, Follows,
  check_follows-Follows,
}
use elrond_go.Blocks.Process.{World, Components, Settings, then_do}
use elrond_go.Blocks.Commit.{
  Ledger, Commits, on_world, set_current, report_committed, finish, commit_metas, commit_processed,
  commit_hashed, commit_valid, revert_if_failed, commit_block,
}

pub then_do-none {ℓ} :
    {S : Type ℓ} (r : S × Option Error) (k : S → S × Option Error) (s' : S)
    → then_do r k ≡ (s', none)
    → (s : S) × (r ≡ (s, none)) × (k s ≡ (s', none))
unfolding then_do
then_do-none (s, none) k s' e = (s, refl, e)
then_do-none (s, some x) k s' e = let q : some x ≡ none = ap (λ p. p.1) e in cc

-- From the current header, if there is one, the headers of the blocks: the first one has the nonce 1
-- and the hash of the genesis, and each other is built on the one before.
pub data Linked (c : Codec) (genesis : Bytes) : Option Header → List Header → Type 0 where
  nothing : {o : Option Header} → Linked c genesis o []
  first :
      {h : Header} {hs : List Header}
      → h.nonce ≡ 1
      → h.prev_hash ≡ genesis
      → Linked c genesis (some h) hs
      → Linked c genesis none (h ∷ hs)
  next :
      {p h : Header} {hs : List Header}
      → Follows c p h
      → Linked c genesis (some h) hs
      → Linked c genesis (some p) (h ∷ hs)

-- the last header of a list, or the one before it
unfoldable pub last_or : Option Header → List Header → Option Header
last_or o [] = o
last_or o (h ∷ hs) = last_or (some h) hs

module _ {R : Type 0} where
  module _ (p : Components R) (q : Commits R) (s : Storage) (c : Codec) (env : Settings) where
    -- what a commit leaves of the chain
    abbrev Moves : Header → Ledger R → Ledger R → Type 0
    Moves h l l' = l'.chain ≡ record l.chain { current_block_header = some h }

    -- a step on the world, and the rest
    world_step :
        (h : Header) (r : World R × Option Error) (l l' : Ledger R)
        (k : Ledger R → Ledger R × Option Error)
        → ((m : Ledger R) → k m ≡ (l', none) → Moves h m l')
        → then_do (on_world r l) k ≡ (l', none)
        → Moves h l l'
    unfolding on_world
    world_step h (w, e) l l' k step t =
        let a = then_do-none (record l { world = w }, e) k l' t in
        let b : l.chain ≡ a.0.chain = ap (λ x. x.0.chain) a.1 in
        let f : Chain → Chain = λ x. record x { current_block_header = some h } in
        step a.0 a.2 ∙ ap f (sym b)

    report-Moves :
        (h : Header) (finals : List Header) (r : Result Header) (l l' : Ledger R)
        → report_committed p q s c env h finals r l ≡ (l', none)
        → l'.chain ≡ l.chain
    unfolding report_committed
    report-Moves h finals (err e) l l' t = let x : some e ≡ none = ap (λ y. y.1) t in cc
    report-Moves h finals (ok m) l l' t = sym (ap (λ y. y.0.chain) t)

    commit_metas-Moves :
        (h : Header) (hash : Bytes) (body : List MiniBlock) (metas : List Header)
        (r : Result (List Header)) (l l' : Ledger R)
        → commit_metas p q s c env h hash body metas r l ≡ (l', none)
        → Moves h l l'
    unfolding commit_metas finish set_current
    commit_metas-Moves h hash body metas (err e) l l' t =
        let x : some e ≡ none = ap (λ y. y.1) t in cc
    commit_metas-Moves h hash body metas (ok finals) l l' t =
        world_step h _ l l' _ (λ m. world_step h _ m l' _ (λ m' u. report-Moves h finals _ _ l' u))
          t

    commit_processed-Moves :
        (h : Header) (hash : Bytes) (body : List MiniBlock) (r : Result (List Header))
        (l l' : Ledger R)
        → commit_processed p q s c env h hash body r l ≡ (l', none)
        → Moves h l l'
    unfolding commit_processed
    commit_processed-Moves h hash body (err e) l l' t =
        let x : some e ≡ none = ap (λ y. y.1) t in cc
    commit_processed-Moves h hash body (ok metas) l l' t =
        world_step h _ l l' _ (λ m. commit_metas-Moves h hash body metas _ m l') t

    commit_hashed-Moves :
        (h : Header) (body : List MiniBlock) (r : Result Bytes) (l l' : Ledger R)
        → commit_hashed p q s c env h body r l ≡ (l', none)
        → Moves h l l'
    unfolding commit_hashed
    commit_hashed-Moves h body (err e) l l' t = let x : some e ≡ none = ap (λ y. y.1) t in cc
    commit_hashed-Moves h body (ok hash) l l' t =
        world_step h _ (record l { world = _ }) l' _
          (λ m. world_step h _ m l' _ (λ m'. commit_processed-Moves h hash body _ m' l')) t

    commit_valid-Moves :
        (h : Header) (body : List MiniBlock) (l l' : Ledger R)
        → commit_valid p q s c env (some h) (some body) l ≡ (l', none)
        → Moves h l l'
    unfolding commit_valid
    commit_valid-Moves h body l l' t = elim (Bool-cases (is_shard_content h.content)) [
      | inl u ↦ commit_hashed-Moves h body _ l l' (rw u at t)
      | inr u ↦ let v = rw u at t in cc
    ]

    -- what CommitBlock without an error comes to
    record Committed (h : Option Header) (l l' : Ledger R) : Type 0 where
      header : Header
      there : h ≡ some header
      valid : check_against c l.chain header l.chain.current_block_header ≡ none
      moves : Moves header l l'

    not_reverted :
        (r : Ledger R × Option Error) (l' : Ledger R)
        → revert_if_failed p q s c env r ≡ (l', none)
        → r ≡ (l', none)
    unfolding revert_if_failed
    not_reverted (l, none) l' e = e
    not_reverted (l, some x) l' e = let y : some x ≡ none = ap (λ z. z.1) e in cc

    validated :
        (h : Option Header) (body : Option (List MiniBlock)) (l m l' : Ledger R)
        → check_block_validity c (some l.chain) h body ≡ none
        → m ≡ l
        → commit_valid p q s c env h body m ≡ (l', none)
        → Committed h l l'
    unfolding check_block_validity check_for_nils
    validated none body l m l' e b t = cc
    validated (some h) none l m l' e b t = cc
    validated (some h) (some body) l m l' e b t = record {
      header = h;
      there = refl;
      valid = e;
      moves = commit_valid-Moves h body l l' (rw b at t);
    }

    commit_block-Committed :
        (h : Option Header) (body : Option (List MiniBlock)) (l l' : Ledger R)
        → commit_block p q s c env h body l ≡ (l', none)
        → Committed h l l'
    unfolding commit_block
    commit_block-Committed h body l l' e =
        let r = not_reverted _ l' e in
        let a =
          then_do-none (l, check_block_validity c (some l.chain) h body)
            (λ m. commit_valid p q s c env h body m) l' r in
        validated h body l a.0 l' (ap (λ z. z.1) a.1) (sym (ap (λ z. z.0) a.1)) a.2

    -- blocks, one after another, until the first error
    unfoldable pub commit_blocks :
        List (Option Header × Option (List MiniBlock)) → Ledger R → Ledger R × Option Error
    commit_blocks [] l = (l, none)
    commit_blocks ((h, body) ∷ bs) l =
        then_do (commit_block p q s c env h body l) (λ m. commit_blocks bs m)

    check_first-first :
        (ch : Chain) (h : Header)
        → check_first ch h ≡ none
        → (h.nonce ≡ 1) × (h.prev_hash ≡ ch.genesis_header_hash)
    unfolding check_first
    check_first-first ch h e = ground (arith, bytes_eq_iff h.prev_hash ch.genesis_header_hash)

    add_link :
        (genesis : Bytes) (l : Ledger R) (h : Header) (hs : List Header) (o : Option Header)
        → l.chain.genesis_header_hash ≡ genesis
        → check_against c l.chain h o ≡ none
        → Linked c genesis (some h) hs
        → Linked c genesis o (h ∷ hs)
    unfolding check_against
    add_link genesis l h hs none g e k =
        let f = check_first-first l.chain h e in first f.0 (f.1 ∙ g) k
    add_link genesis l h hs (some prev) g e k = next (check_follows-Follows c h prev e) k

    -- the headers of blocks that were committed
    pub record Extended (bs : List (Option Header × Option (List MiniBlock))) (l l' : Ledger R)
        : Type 0 where
      pub headers : List Header
      pub all_there : map (λ b. b.0) bs ≡ map some headers
      pub linked : Linked c l.chain.genesis_header_hash l.chain.current_block_header headers
      pub last : l'.chain.current_block_header ≡ last_or l.chain.current_block_header headers

    -- Where CommitBlock says no error for blocks, one after another, their headers form a chain from
    -- the current header, or from the genesis if there is none: the first block behind the genesis
    -- has the nonce 1 and the hash of the genesis, each other block has a later round than the one
    -- before, the next nonce, its hash and its seed, and the current header is the last one.
    pub commit_blocks-Extended :
        (bs : List (Option Header × Option (List MiniBlock))) (l l' : Ledger R)
        → commit_blocks bs l ≡ (l', none)
        → Extended bs l l'
    unfolding commit_blocks last_or
    commit_blocks-Extended [] l l' e = record {
      headers = [];
      all_there = refl;
      linked = nothing;
      last = sym (ap (λ z. z.0.chain.current_block_header) e);
    }
    commit_blocks-Extended ((h, body) ∷ bs) l l' e =
        let a = then_do-none (commit_block p q s c env h body l) (λ m. commit_blocks bs m) l' e in
        let k = commit_block-Committed h body l a.0 a.1 in
        let r = commit_blocks-Extended bs a.0 l' a.2 in
        let cur : a.0.chain.current_block_header ≡ some k.header =
          ap (λ x. x.current_block_header) k.moves in
        let gen : a.0.chain.genesis_header_hash ≡ l.chain.genesis_header_hash =
          ap (λ x. x.genesis_header_hash) k.moves in
        record {
          headers = k.header ∷ r.headers;
          all_there =
              ap (λ o. o ∷ map (λ b. b.0) bs) k.there ∙ ap (λ t. some k.header ∷ t) r.all_there;
          linked =
              add_link l.chain.genesis_header_hash l k.header r.headers l.chain.current_block_header
                refl k.valid (rw (gen, cur) at r.linked);
          last = r.last ∙ ap (λ o. last_or o r.headers) cur;
        }

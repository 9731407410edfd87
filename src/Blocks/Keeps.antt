-- ===== src/Blocks/Keeps.antt =====
-- The steps of ProcessBlock that leave the accounts.
use elrond_go.Prelude.{
  ◌≡◌, refl, ◌∙◌, inl, inr, Bool, true, false, Option, none, some, List, [], ◌∷◌, Bool-cases,
}
use elrond_go.Prelude.Bytes.{Bytes}
use elrond_go.Accounts.Types.{AccountsDb, Storage}
use elrond_go.Blocks.Types.{Error, Result, ok, err, MiniBlock, Header, Codec}
use elrond_go.Blocks.Arrivals.{have_missing}
use elrond_go.Blocks.Process.{
  World, Components, Settings, then_do, fail_if, with_rest, with_shard, start_block,
  wait_if_missing, check_meta_headers, check_cross_shard, prepare, check_ready, set_each,
  set_meta_consensus, verify_state_root, same_peer_root, update_each_peer_state,
  check_validator_statistics_root_hash, check_outcome,
}

module _ {R : Type 0} where
  -- a step that leaves the accounts
  abbrev pub Keeps : (World R → World R × Option Error) → Type 0
  Keeps f = (w : World R) → (f w).0.db ≡ w.db

  pub then_do-Keeps :
      (r : World R × Option Error) (g : World R → World R × Option Error) (db : AccountsDb)
      → r.0.db ≡ db
      → Keeps g
      → (then_do r g).0.db ≡ db
  unfolding then_do
  then_do-Keeps (w, none) g db e k = k w ∙ e
  then_do-Keeps (w, some x) g db e k = e

  fail_if-Keeps : (b : Bool) (e : Error) → Keeps (fail_if b e)
  unfolding fail_if
  fail_if-Keeps true e w = refl
  fail_if-Keeps false e w = refl

  with_rest-Keeps : (r : World R → R × Option Error) → Keeps (λ w. with_rest (r w) w)
  unfolding with_rest
  with_rest-Keeps r w = refl

  module _ (p : Components R) (s : Storage) (c : Codec) (env : Settings) where
    wait_if_missing-Keeps :
        (arrivals : List (Bytes × Header)) → Keeps (wait_if_missing p s c env arrivals)
    unfolding wait_if_missing with_shard
    wait_if_missing-Keeps arrivals w = elim (Bool-cases (have_missing w.shard.current)) [
      | inl t ↦ rw t refl
      | inr t ↦ rw t refl
    ]

    pub prepare-Keeps :
        (h : Header) (body : List MiniBlock) (t : Bool) (arrivals : List (Bytes × Header))
        → Keeps (prepare p s c env h body t arrivals)
    unfolding prepare start_block
    prepare-Keeps h body t arrivals w = then_do-Keeps _ _ w.db (fail_if-Keeps _ _ w) (λ w.
        then_do-Keeps _ _ w.db refl (λ w.
          then_do-Keeps _ _ w.db (with_rest-Keeps (λ w. p.set_shard_consensus_data h w.rest) w)
            (λ w. then_do-Keeps _ _ w.db (fail_if-Keeps _ _ (start_block p s c env h body w)) (λ w.
              then_do-Keeps _ _ w.db
                (with_rest-Keeps (λ w. p.is_data_prepared_for_processing w.rest) w)
                (λ w. wait_if_missing-Keeps arrivals w)))))

    pub check_ready-Keeps : (h : Header) → Keeps (check_ready p s c env h)
    unfolding check_ready check_meta_headers check_cross_shard
    check_ready-Keeps h w =
        then_do-Keeps _ _ w.db (fail_if-Keeps _ _ w) (λ w. then_do-Keeps _ _ w.db refl (λ w. refl))

    set_each-Keeps : (ms : List Header) → Keeps (set_each p s c env ms)
    unfolding set_each
    set_each-Keeps [] w = refl
    set_each-Keeps (m ∷ ms) w =
        then_do-Keeps _ _ w.db (with_rest-Keeps (λ w. p.set_meta_consensus_data m w.rest) w)
          (λ w'. set_each-Keeps ms w')

    pub set_meta_consensus-Keeps : (ms : List Header) → Keeps (set_meta_consensus p s c env ms)
    unfolding set_meta_consensus
    set_meta_consensus-Keeps ms w = set_each-Keeps ms _

    same_peer_root-Keeps :
        (m : Header) (r : R × Result Bytes) → Keeps (same_peer_root p s c env m r)
    unfolding same_peer_root
    same_peer_root-Keeps m (r, err e) w = refl
    same_peer_root-Keeps m (r, ok root) w = fail_if-Keeps _ _ (record w { rest = r })

    update_each-Keeps : (ms : List Header) → Keeps (update_each_peer_state p s c env ms)
    unfolding update_each_peer_state
    update_each-Keeps [] w = refl
    update_each-Keeps (m ∷ ms) w =
        then_do-Keeps _ _ w.db (same_peer_root-Keeps m (p.update_peer_state m w.rest) w)
          (λ w'. update_each-Keeps ms w')

    pub check_outcome-Keeps :
        (h : Header) (body : List MiniBlock) (ms : List Header)
        → Keeps (check_outcome p s c env h body ms)
    unfolding check_outcome verify_state_root check_validator_statistics_root_hash
    check_outcome-Keeps h body ms w =
        then_do-Keeps _ _ w.db
          (with_rest-Keeps (λ w. p.verify_created_block_transactions body w.rest) w)
          (λ w.
            then_do-Keeps _ _ w.db (fail_if-Keeps _ _ w)
              (λ w. then_do-Keeps _ _ w.db (update_each-Keeps ms w) (λ w. fail_if-Keeps _ _ w)))

-- ===== src/Sharding/Group.antt =====
-- ComputeValidatorsGroup: it ends, with as many different validators as the group needs.
use elrond_go.Prelude.{
  ℕ, zero, suc, ◌≡◌, refl, ap, ◌+◌, ◌<◌, ◌≤◌, inl, inr, true, false, none, some, List, [], ◌∷◌,
  ◌++◌, arith, ltb, ◌==◌, Bool-cases, length, length-append, get_elem?,
}
use mathlib.Core.Path.{subst}
use native.Mathlib.Nat.{mod-lt}
use elrond_go.Prelude.Bytes.{Bytes, bytes_eq, bytes_eq_iff}
use elrond_go.Prelude.Maps.{All, All-append, lookup}
use elrond_go.Sharding.Coordinator.{metachain_shard_id}
use elrond_go.Sharding.Nodes.{
  Validator, Run, finished, and_then, compute_list_index, validator_is_in_list, NodesMap,
  NodesCoordinator, shards_are_large, is_small_meta, set_nodes_per_shards, expand_eligible_list,
  group_size, seed_of, compute_validators_group, element_at, select,
}
use elrond_go.Sharding.Selected.{NoneTwice, one_left, check_index-finished}

twice_append :
    (v x : Validator) (xs : List Validator)
    → validator_is_in_list x xs ≡ false
    → bytes_eq x.pub_key v.pub_key ≡ false
    → validator_is_in_list x (xs ++ v ∷ []) ≡ false
unfolding validator_is_in_list
twice_append v x [] h k = rw k refl
twice_append v x (y ∷ ys) h k = ground (arith, twice_append v x ys)

NoneTwice-append :
    (v : Validator) (xs : List Validator)
    → NoneTwice xs
    → validator_is_in_list v xs ≡ false
    → NoneTwice (xs ++ v ∷ [])
unfolding validator_is_in_list
NoneTwice-append v [] d n = (unfold validator_is_in_list in refl, tt)
NoneTwice-append v (x ∷ xs) d n =
    let ne : bytes_eq x.pub_key v.pub_key ≡ false =
      ground (arith, n, bytes_eq_iff v.pub_key x.pub_key, bytes_eq_iff x.pub_key v.pub_key) in
    let rest : validator_is_in_list v xs ≡ false = ground (arith, n) in
    (twice_append v x xs d.0 ne, NoneTwice-append v xs d.1 rest)

-- a validator that is eligible
abbrev pub IsEligible : List Validator → Validator → Type 0
IsEligible eligible v = (i : ℕ) × (get_elem? eligible i ≡ some v)

-- a consensus group: of a size, of eligible validators, of which none stands twice
pub record IsGroup (eligible : List Validator) (size : ℕ) (group : List Validator) : Type 0 where
  pub sized : length group ≡ size
  pub chosen : All (IsEligible eligible) group
  pub distinct : NoneTwice group

pub record Chosen (eligible : List Validator) (size : ℕ) (r : Run (List Validator)) : Type 0 where
  pub group : List Validator
  pub result : r ≡ finished group
  pub is_group : IsGroup eligible size group

element_at-finished :
    (eligible : List Validator) (i : ℕ) (v : Validator)
    → get_elem? eligible i ≡ some v
    → element_at eligible i ≡ finished v
unfolding element_at
element_at-finished eligible i v e = rw (e, element_at) refl

module _ (eligible : List Validator) (d : NoneTwice eligible) (hash : Bytes → Bytes)
    (seed : Bytes) where
  list_index :
      (i n : ℕ) → 0 < n → (p : ℕ) × (compute_list_index hash i n seed ≡ finished p) × (p < n)
  unfolding compute_list_index
  list_index i zero b = absurd (omega (arith, b))
  list_index i (suc k) b = (_, refl, mod-lt _ (omega arith))

  select-Chosen :
      (size k i : ℕ) (selected : List Validator)
      → IsGroup eligible (length selected) selected
      → length selected + k ≡ size
      → size ≤ length eligible
      → Chosen eligible size (select eligible hash seed k i selected)
  unfolding select and_then
  select-Chosen size zero i selected g e b =
      let n : length selected ≡ size = omega (arith, e) in
      record {
        group = selected;
        result = refl;
        is_group = record { sized = n; chosen = g.chosen; distinct = g.distinct };
      }
  select-Chosen size (suc k) i selected g e b =
      let f = one_left eligible selected d (omega (arith, e, b)) in
      let p = list_index i (length eligible) (omega (arith, e, b)) in
      let c = check_index-finished eligible selected f p.0 p.2 in
      let n : length (selected ++ c.validator ∷ []) ≡ suc (length selected) =
        omega (arith, length-append selected (c.validator ∷ [])) in
      let there = element_at-finished eligible c.index c.validator c.at_index in
      rw (p.1, c.result, there)
        (select-Chosen size k (i + 1) (selected ++ c.validator ∷ [])
          (record {
            sized = refl;
            chosen =
                All-append (IsEligible eligible) selected (c.validator ∷ []) g.chosen
                  ((c.index, c.at_index), tt);
            distinct = NoneTwice-append c.validator selected g.distinct c.unused;
          })
          (omega (arith, n, e)) b)

shards_are_large-length :
    (nodes : NodesMap) (size k i j : ℕ)
    → shards_are_large nodes size k i ≡ true
    → i ≤ j
    → j < i + k
    → size ≤ length (expand_eligible_list nodes j)
unfolding shards_are_large
shards_are_large-length nodes size zero i j h a b = absurd (omega (arith, a, b))
shards_are_large-length nodes size (suc k) i j h a b =
    elim (Bool-cases (ltb (length (expand_eligible_list nodes i)) size)) [
      | inl t ↦ let q = rw t at h in cc
      | inr t ↦ elim (Bool-cases (i == j)) [
        | inl u ↦
            let e : i ≡ j = ground (arith, u) in
            let m : size ≤ length (expand_eligible_list nodes i) = ground (arith, t) in rw e at m
        | inr u ↦
            shards_are_large-length nodes size k (i + 1) j (rw t at h) (ground (arith, a, u))
              (omega (arith, b))
      ]
    ]

-- what SetNodesPerShards accepts
accepted :
    (nodes : NodesMap) (c c' : NodesCoordinator)
    → set_nodes_per_shards (some nodes) c ≡ (c', none)
    → (shards_are_large nodes c.shard_consensus_group_size c.nb_shards 0 ≡ true)
      × (record c { nodes_map = nodes } ≡ c')
unfolding set_nodes_per_shards
accepted nodes c c' e =
    elim (Bool-cases
      (is_small_meta (lookup metachain_shard_id nodes) c.meta_consensus_group_size)) [
        | inl t ↦ let q = rw t at e in cc
        | inr t ↦
            elim (Bool-cases (shards_are_large nodes c.shard_consensus_group_size c.nb_shards 0)) [
              | inl u ↦ let q = rw (t, u) at e in (u, ap (λ p. p.0) q)
              | inr u ↦ let q = rw (t, u) at e in cc
            ]
      ]

-- Where SetNodesPerShards accepts the validators of the shards and no public key stands twice in the
-- list of a shard, ComputeValidatorsGroup ends for every randomness and round without a panic, and
-- its group has the size for a shard, is of validators of the shard, and has no public key twice.
pub compute_validators_group-Chosen :
    (nodes : NodesMap) (c c' : NodesCoordinator) (randomness : Bytes) (round shard_id : ℕ)
    → set_nodes_per_shards (some nodes) c ≡ (c', none)
    → shard_id < c.nb_shards
    → c.nb_shards ≤ metachain_shard_id
    → NoneTwice (expand_eligible_list nodes shard_id)
    → Chosen
        (expand_eligible_list nodes shard_id)
        c.shard_consensus_group_size
        (compute_validators_group c' (some randomness) round shard_id)
unfolding compute_validators_group group_size
compute_validators_group-Chosen nodes c c' randomness round shard_id e b m d =
    let a = accepted nodes c c' e in
    let large =
      shards_are_large-length nodes c.shard_consensus_group_size c.nb_shards 0 shard_id a.0
        (omega arith) (omega (arith, b)) in
    let t : ltb shard_id c.nb_shards ≡ true = ground (arith, b) in
    let u : (shard_id == metachain_shard_id) ≡ false = ground (arith, b, m) in
    subst
      (λ x.
        Chosen (expand_eligible_list nodes shard_id) c.shard_consensus_group_size
          (compute_validators_group x (some randomness) round shard_id))
      a.1
      (rw (t, u)
        (select-Chosen (expand_eligible_list nodes shard_id) d c.hash (seed_of round randomness)
          c.shard_consensus_group_size c.shard_consensus_group_size 0 []
          (record { sized = refl; chosen = tt; distinct = tt }) (omega arith) large))

-- ===== src/Sharding/Bounds.antt =====
-- The masks of a coordinator, and the shards that it gives.
use native.Mathlib.Nat.{mod-lt, one-le-pow}
use elrond_go.Prelude.{
  ℕ, zero, suc, ◌+◌, ◌-◌, ◌%◌, ◌^◌, ◌≤◌, ◌<◌, ◌≡◌, refl, sym, ap, some-eq, inl, inr, ◌⊎◌, false,
  not, ◌&&◌, none, some, arith, ltb, leb, ◌==◌, if◌then◌else◌, Bool-cases,
}
use elrond_go.Prelude.Bytes.{Bytes}
use elrond_go.Sharding.Coordinator.{
  two32, metachain_shard_id, MultiShardCoordinator, ceil_log2_from, ceil_log2, calculate_masks,
  new_multi_shard_coordinator, address_number, buff_needed, is_smart_contract_on_metachain,
  compute_id,
}

-- the power of two is enough, and the one before it is not
ceil_log2_from_lem :
    (f k n : ℕ)
    → n ≤ 2 ^ (k + f)
    → (n ≤ 2 ^ ceil_log2_from f k n)
      × ((ceil_log2_from f k n ≡ k) ⊎ (2 ^ (ceil_log2_from f k n - 1) < n))
unfolding ceil_log2_from
ceil_log2_from_lem zero k n h = let e : k + 0 ≡ k = omega arith in (rw e at h, inl refl)
ceil_log2_from_lem (suc f) k n h = elim (Bool-cases (leb n (2 ^ k))) [
  | inl t ↦ rw t (ground (arith, t), inl refl)
  | inr t ↦
      let e : k + suc f ≡ suc k + f = omega arith in
      let r = ceil_log2_from_lem f (suc k) n (rw e at h) in
      rw t
        (r.0, elim r.1 [ inl p ↦ inr (below k n (ceil_log2_from f (suc k) n) p t) | inr q ↦ inr q ])
]
  where
    below : (k n c : ℕ) → c ≡ suc k → leb n (2 ^ k) ≡ false → 2 ^ (c - 1) < n
    below k n c p t = let e : c - 1 ≡ k = omega (arith, p) in rw e (ground (arith, t))

-- The number of ones in the high mask is enough for the number of shards, and one less is not,
-- where there is more than one shard.
pub ceil_log2_lem :
    (n : ℕ)
    → 1 ≤ n
    → n < two32
    → (n ≤ 2 ^ ceil_log2 n) × ((ceil_log2 n ≡ 0) ⊎ (2 ^ (ceil_log2 n - 1) < n))
unfolding ceil_log2
ceil_log2_lem n one h = ceil_log2_from_lem 32 0 n (omega (arith, h))

record Made (n : ℕ) (msc : MultiShardCoordinator) : Type 0 where
  some_shard : 1 ≤ n
  high : msc.mask_high ≡ ceil_log2 n
  low : msc.mask_low ≡ ceil_log2 n - 1
  shards : msc.number_of_shards ≡ n

coordinator_fields :
    (n self_id : ℕ) (msc : MultiShardCoordinator)
    → new_multi_shard_coordinator n self_id ≡ some msc
    → Made n msc
unfolding new_multi_shard_coordinator calculate_masks
coordinator_fields n self_id msc made = elim (Bool-cases (ltb n 1)) [
  | inl t ↦ let made' : none ≡ some msc = rw t at made in cc
  | inr t ↦ elim (Bool-cases (leb n self_id && not (self_id == metachain_shard_id))) [
    | inl u ↦ let made' : none ≡ some msc = rw (t, u) at made in cc
    | inr u ↦
        let e = some-eq (rw (t, u) at made) in
        record {
          some_shard = ground (arith, t);
          high = sym (ap (λ x. x.mask_high) e);
          low = sym (ap (λ x. x.mask_low) e);
          shards = sym (ap (λ x. x.number_of_shards) e);
        }
  ]
]

rest_below : (a k : ℕ) → a % 2 ^ k < 2 ^ k
rest_below a k = mod-lt a (one-le-pow k 2 (omega arith))

in_range :
    (n a h : ℕ)
    → 1 ≤ n
    → (h ≡ 0) ⊎ (2 ^ (h - 1) < n)
    → (if ltb (n - 1) (a % 2 ^ h) then a % 2 ^ (h - 1) else a % 2 ^ h) < n
in_range n a h one tight = elim (Bool-cases (ltb (n - 1) (a % 2 ^ h))) [
  | inl t ↦ rw t (elim tight [
    | inl z ↦
        let p : 2 ^ h ≡ 1 = rw z refl in
        let b = rest_below a h in
        let over : n - 1 < a % 2 ^ h = ground (arith, t) in absurd (omega (arith, p, b, over, one))
    | inr q ↦ omega (arith, q, rest_below a (h - 1))
  ])
  | inr t ↦ rw t (let le : a % 2 ^ h ≤ n - 1 = ground (arith, t) in omega (arith, le, one))
]

-- A coordinator that is made for a number of shards puts every address on the metachain or into one
-- of these shards.
pub compute_id_bound :
    (number_of_shards self_id : ℕ) (msc : MultiShardCoordinator)
    → number_of_shards < two32
    → new_multi_shard_coordinator number_of_shards self_id ≡ some msc
    → (address : Bytes)
    → (compute_id msc address ≡ metachain_shard_id) ⊎ (compute_id msc address < number_of_shards)
unfolding compute_id
compute_id_bound n self_id msc small made address =
    let m = coordinator_fields n self_id msc made in
    let buff = buff_needed n address in
    rw (m.high, m.low, m.shards)
      (elim (Bool-cases (is_smart_contract_on_metachain buff address)) [
        | inl t ↦ rw t (inl refl)
        | inr t ↦ rw t (
            inr (
              in_range n (address_number 0 buff) (ceil_log2 n) m.some_shard
                (ceil_log2_lem n m.some_shard small).1))
      ])

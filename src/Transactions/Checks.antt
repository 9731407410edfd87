-- ===== src/Transactions/Checks.antt =====
-- checkTxValues and what it leaves: a transaction that is taken is paid for.
use native.Mathlib.Nat.{mul-le-mul_left}
use elrond_go.Prelude.{
  ℕ, ◌+◌, ◌*◌, ◌≤◌, ◌≡◌, refl, ap, inl, inr, ◌⊎◌, ◌↔◌, false, none, some, arith, ltb, if◌then◌else◌,
  Bool-cases,
}
use elrond_go.Prelude.Int.{ℤ, pos, ◌+ℤ◌, ◌≤ℤ◌, ltb_ℤ, eqb_ℤ, eq_of_parts, pos_part}
use elrond_go.Accounts.Types.{
  Account, higher_nonce, lower_nonce, insufficient_funds, insufficient_gas_price,
  insufficient_gas_limit,
}
use elrond_go.Transactions.Economics.{
  Transaction, EconomicsData, compute_fee, compute_gas_limit, check_validity_tx_values,
}
use elrond_go.Transactions.Process.{check_tx_values}

-- what a transaction can cost at most, with its value
abbrev pub cost : Transaction → ℤ
cost tx = pos (tx.gas_price * tx.gas_limit) +ℤ tx.value

decide_iff :
    (m n : ℕ) (k balance : ℤ)
    → ((if ltb m n
          then some higher_nonce
          else if ltb n m
          then some lower_nonce
          else if eqb_ℤ k (pos 0)
          then none
          else if ltb_ℤ balance k
          then some insufficient_funds
          else none)
        ≡ none)
      ↔ ((m ≡ n) × ((k ≡ pos 0) ⊎ (k ≤ℤ balance)))
decide_iff m n k balance = (λ h. forth h, λ h. back h)
  where
    forth :
        (if ltb m n
            then some higher_nonce
            else if ltb n m
            then some lower_nonce
            else if eqb_ℤ k (pos 0)
            then none
            else if ltb_ℤ balance k
            then some insufficient_funds
            else none)
          ≡ none
        → ((m ≡ n) × ((k ≡ pos 0) ⊎ (k ≤ℤ balance)))
    forth h = elim (Bool-cases (ltb m n)) [
      | inl t ↦ let h' : some higher_nonce ≡ none = rw t at h in cc
      | inr t ↦ elim (Bool-cases (ltb n m)) [
        | inl u ↦ let h' : some lower_nonce ≡ none = rw (t, u) at h in cc
        | inr u ↦ (
          ground (arith, t, u),
          elim (Bool-cases (eqb_ℤ k (pos 0))) [
            | inl z ↦ inl (eq_of_parts k (pos 0) (ground (arith, z)))
            | inr z ↦ elim (Bool-cases (ltb_ℤ balance k)) [
              | inl w ↦ let h' : some insufficient_funds ≡ none = rw (t, u, z, w) at h in cc
              | inr w ↦ inr (ground (arith, w))
            ]
          ],
        )
      ]
    ]

    back :
        (m ≡ n) × ((k ≡ pos 0) ⊎ (k ≤ℤ balance))
        → (if ltb m n
            then some higher_nonce
            else if ltb n m
            then some lower_nonce
            else if eqb_ℤ k (pos 0)
            then none
            else if ltb_ℤ balance k
            then some insufficient_funds
            else none)
          ≡ none
    back (e, inl z) = let t : ltb n n ≡ false = ground arith in rw (e, z, t) refl
    back (e, inr z) =
        let t : ltb n n ≡ false = ground arith in
        let u : ltb_ℤ balance k ≡ false = ground (arith, z) in
        rw (e, t, u) (elim (Bool-cases (eqb_ℤ k (pos 0))) [ inl w ↦ rw w refl | inr w ↦ rw w refl ])

-- checkTxValues takes a transaction of an account exactly when its nonce is the account's, and the
-- balance covers the gas limit at the gas price and the value, or these sum up to zero.
pub check_tx_values_iff :
    (tx : Transaction) (a : Account)
    → (check_tx_values tx (some a) ≡ none)
      ↔ ((a.nonce ≡ tx.nonce) × ((cost tx ≡ pos 0) ⊎ (cost tx ≤ℤ a.balance)))
unfolding check_tx_values
check_tx_values_iff tx a = decide_iff a.nonce tx.nonce (cost tx) a.balance

pos-+ℤ : (m n : ℕ) → pos m +ℤ pos n ≡ pos (m + n)
unfolding ◌+ℤ◌
pos-+ℤ m n = ground arith

enough_gas :
    (ed : EconomicsData) (tx : Transaction)
    → check_validity_tx_values ed tx ≡ none
    → compute_gas_limit ed tx ≤ tx.gas_limit
unfolding check_validity_tx_values
enough_gas ed tx h = elim (Bool-cases (ltb tx.gas_price ed.min_gas_price)) [
  | inl t ↦ let h' : some insufficient_gas_price ≡ none = rw t at h in cc
  | inr t ↦ elim (Bool-cases (ltb tx.gas_limit (compute_gas_limit ed tx))) [
    | inl u ↦ let h' : some insufficient_gas_limit ≡ none = rw (t, u) at h in cc
    | inr u ↦ ground (arith, u)
  ]
]

-- A transaction that checkTxValues and CheckValidityTxValues take, whose value and whose sender's
-- balance are not negative, costs with its fee and its value at most that balance.
pub fee-covered :
    (ed : EconomicsData) (tx : Transaction) (a : Account) (v n : ℕ)
    → tx.value ≡ pos v
    → a.balance ≡ pos n
    → check_tx_values tx (some a) ≡ none
    → check_validity_tx_values ed tx ≡ none
    → compute_fee ed tx +ℤ tx.value ≤ℤ a.balance
fee-covered ed tx a v n hv hn ht he =
    let le = mul-le-mul_left tx.gas_price (enough_gas ed tx he) in
    rw (hv, hn)
      (unfold compute_fee in
        rw (pos-+ℤ (tx.gas_price * compute_gas_limit ed tx) v) (
          bound le (
            rw (hv, hn, pos-+ℤ (tx.gas_price * tx.gas_limit) v) at
              ((check_tx_values_iff tx a).0 ht).1)))
  where
    bound :
        {f g : ℕ} → f ≤ g → (pos (g + v) ≡ pos 0) ⊎ (pos (g + v) ≤ℤ pos n) → pos (f + v) ≤ℤ pos n
    bound {f = f} {g = g} le (inl z) = let e : g + v ≡ 0 = ap pos_part z in omega (arith, le, e)
    bound le (inr z) = omega (arith, le, z)

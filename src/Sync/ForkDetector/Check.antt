-- ===== src/Sync/ForkDetector/Check.antt =====
-- CheckFork of baseForkDetector.go. Go walks the map in any order; the model in that of its list.
use elrond_go.Prelude.{
  ℕ, Bool, true, false, not, ◌&&◌, ◌||◌, Option, none, some, List, [], ◌∷◌, ltb, ◌==◌,
  if◌then◌else◌,
}
use elrond_go.Prelude.Bytes.{Bytes, bytes_eq, bytes_lt}
use elrond_go.Sync.ForkDetector.Types.{
  received_too_late, processed, notarized, state_eq, HeaderInfo, HeaderMap, ForkDetector, ForkInfo,
}

abbrev pub max_uint64 : ℕ
max_uint64 = 18446744073709551615

-- process.MinForkRound
abbrev pub min_fork_round : ℕ
min_fork_round = 0

unfoldable pub new_fork_info : ForkInfo
new_fork_info = record { is_detected = false; nonce = max_uint64; round = max_uint64; hash = [] }

unfoldable pub current_fork_round : HeaderInfo → ℕ
unfolding state_eq
current_fork_round h = if state_eq h.state notarized then min_fork_round else h.round

unfoldable pub compute_fork_info : HeaderInfo → Bytes → ℕ → Bytes × ℕ
unfolding current_fork_round state_eq
compute_fork_info h last_hash last_round =
    if state_eq h.state received_too_late
    then (last_hash, last_round)
    else if ltb (current_fork_round h) last_round
    then (h.hash, current_fork_round h)
    else if (current_fork_round h == last_round) && bytes_lt h.hash last_hash
    then (h.hash, current_fork_round h)
    else (last_hash, last_round)

unfoldable pub should_signal_fork : HeaderInfo → Bytes → ℕ → Bool
should_signal_fork h last_hash last_round =
    not (bytes_eq h.hash last_hash)
    && (ltb last_round h.round || (h.round == last_round && bytes_lt last_hash h.hash))

-- the variables of the inner loop
pub record Scan : Type 0 where
  pub self : Option HeaderInfo
  pub hash : Bytes
  pub round : ℕ

unfoldable pub scan_start : Scan
scan_start = record { self = none; hash = []; round = max_uint64 }

unfoldable pub scan_step : HeaderInfo → Scan → Scan
unfolding state_eq
scan_step h s =
    if state_eq h.state processed
    then record s { self = some h }
    else let (hash, round) = compute_fork_info h s.hash s.round in
      record s { hash = hash; round = round }

unfoldable pub scan : List HeaderInfo → Scan → Scan
scan [] s = s
scan (h ∷ hs) s = scan hs (scan_step h s)

unfoldable pub signals : Scan → Bool
signals s = elim s.self [ none ↦ false | some own ↦ should_signal_fork own s.hash s.round ]

-- whether the bucket has exactly one header, and is passed over
unfoldable pub is_single : List HeaderInfo → Bool
is_single (h ∷ []) = true
is_single _ = false

-- one round of the outer loop
unfoldable pub check_nonce : ℕ → List HeaderInfo → ForkInfo → ForkInfo
unfolding scan_start is_single signals
check_nonce nonce infos f =
    let s = scan infos scan_start in
    if is_single infos
    then f
    else if not (signals s)
    then f
    else if ltb nonce f.nonce
    then record { is_detected = true; nonce = nonce; round = s.round; hash = s.hash }
    else record f { is_detected = true }

unfoldable pub check_nonces : HeaderMap → ForkInfo → ForkInfo
check_nonces [] f = f
check_nonces ((nonce, infos) ∷ m) f = check_nonces m (check_nonce nonce infos f)

unfoldable pub check_fork : ForkDetector → ForkInfo
unfolding new_fork_info
check_fork d =
    if d.should_force_fork
    then record new_fork_info { is_detected = true }
    else check_nonces d.headers new_fork_info

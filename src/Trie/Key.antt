-- ===== src/Trie/Key.antt =====
-- The keys of data/trie/node.go: bytes as nibbles with a terminator, and common prefixes.
use elrond_go.Prelude.{
  ℕ, suc, ◌+◌, ◌*◌, ◌/◌, ◌%◌, ◌<◌, ◌≡◌, refl, Option, none, some, [], ◌∷◌, arith, ◌==◌,
  if◌then◌else◌,
}
use elrond_go.Prelude.Bytes.{Bytes}
use elrond_go.Prelude.Maps.{All}

abbrev pub hex_terminator : ℕ
hex_terminator = 16

abbrev pub nr_of_children : ℕ
nr_of_children = 17

-- the loop of keyBytesToHex: two nibbles for a byte, and the terminator at the end
unfoldable pub key_bytes_to_hex : Bytes → Bytes
key_bytes_to_hex [] = hex_terminator ∷ []
key_bytes_to_hex (b ∷ bs) = (b / hex_terminator) ∷ (b % hex_terminator) ∷ key_bytes_to_hex bs

-- the loop of hexToKeyBytes, behind its last element; an odd length is refused
unfoldable pub pairs_to_bytes : Bytes → Option Bytes
pairs_to_bytes [] = none
pairs_to_bytes (t ∷ []) = some []
pairs_to_bytes (h ∷ l ∷ []) = none
pairs_to_bytes (h ∷ l ∷ x ∷ xs) = elim (pairs_to_bytes (x ∷ xs)) [
  | none ↦ none
  | some bs ↦ some (((h * hex_terminator + l) % 256) ∷ bs)
]

-- `none` is ErrInvalidLength; an empty slice would fault before (hex[:len(hex)-1])
unfoldable pub hex_to_key_bytes : Bytes → Option Bytes
unfolding pairs_to_bytes
hex_to_key_bytes hex = pairs_to_bytes hex

unfoldable pub prefix_len : Bytes → Bytes → ℕ
prefix_len (a ∷ xs) (b ∷ ys) = let rest = prefix_len xs ys in if a == b then suc rest else 0
prefix_len _ _ = 0

abbrev pub IsByte : ℕ → Type 0
IsByte b = b < 256

-- hexToKeyBytes takes back what keyBytesToHex makes of any bytes.
pub hex_to_key_bytes-key_bytes_to_hex :
    (key : Bytes) → All IsByte key → hex_to_key_bytes (key_bytes_to_hex key) ≡ some key
unfolding hex_to_key_bytes key_bytes_to_hex
hex_to_key_bytes-key_bytes_to_hex [] h = refl
hex_to_key_bytes-key_bytes_to_hex (b ∷ bs) h = step bs (hex_to_key_bytes-key_bytes_to_hex bs h.1)
  where
    step :
        (bs : Bytes)
        → hex_to_key_bytes (key_bytes_to_hex bs) ≡ some bs
        → hex_to_key_bytes (key_bytes_to_hex (b ∷ bs)) ≡ some (b ∷ bs)
    step [] e = ground arith
    step (c ∷ cs) e = ground (arith, e)

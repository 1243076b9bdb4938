-- ===== src/Meta/Hex.antt =====
-- cominitBytesToHex.
use cominit.Base.{
  ℕ, ◌+◌, ◌*◌, ◌/◌, ◌%◌, ◌<◌, [], ◌∷◌, ◌++◌, Option, none, some, ◌≡◌, refl, arith, Bytes, length,
  All,
}
use cominit.Libc.Printf.{hex, hex_digit}
use cominit.Libc.Strtoul.{digit_in}

-- Each round prints `%02x` behind what is there.
unfoldable pub bytes_to_hex : Bytes → Bytes
unfolding hex
bytes_to_hex [] = []
bytes_to_hex (b ∷ src) = hex 2 b ++ bytes_to_hex src

abbrev pub IsByte : ℕ → Type 0
IsByte b = b < 256

-- A byte is read back from two hexadecimal digits, a string from its pairs of digits.
unfoldable pub hex_to_bytes : Bytes → Option Bytes
unfolding digit_in
hex_to_bytes [] = some []
hex_to_bytes (c ∷ []) = none
hex_to_bytes (c ∷ d ∷ s) = elim (digit_in 16 c) [
  | none ↦ none
  | some x ↦ elim (digit_in 16 d) [
    | none ↦ none
    | some y ↦ elim (hex_to_bytes s) [ none ↦ none | some bs ↦ some ((x * 16 + y) ∷ bs) ]
  ]
]

digit_in-hex_digit : (d : ℕ) → d < 16 → digit_in 16 (hex_digit d) ≡ some d
unfolding digit_in hex_digit
digit_in-hex_digit d h = ground arith

-- Two digits for each byte.
pub length-bytes_to_hex : (src : Bytes) → length (bytes_to_hex src) ≡ 2 * length src
unfolding bytes_to_hex
length-bytes_to_hex [] = refl
length-bytes_to_hex (b ∷ src) = omega (arith, length-bytes_to_hex src)

-- The hexadecimal string determines the bytes: reading its pairs of digits gives them back.
pub hex_to_bytes-bytes_to_hex :
    (src : Bytes) → All IsByte src → hex_to_bytes (bytes_to_hex src) ≡ some src
unfolding hex_to_bytes bytes_to_hex
hex_to_bytes-bytes_to_hex [] h = refl
hex_to_bytes-bytes_to_hex (b ∷ src) (hb, hs) = ground (
  arith,
  digit_in-hex_digit ((b / 16) % 16) (omega arith),
  digit_in-hex_digit (b % 16) (omega arith),
  hex_to_bytes-bytes_to_hex src hs,
)

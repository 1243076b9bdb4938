-- ===== src/Libc/Strtoul.antt =====
-- strtoul and strtoull on a 64-bit target, as ISO C describes them.
use cominit.Base.{
  ℕ, ◌+◌, ◌-◌, ◌*◌, ◌%◌, ◌^◌, ◌<◌, Bool, true, false, ◌&&◌, ◌||◌, [], ◌∷◌, Option, none, some,
  arith, ltb, leb, ◌==◌, if◌then◌else◌, Bytes,
}

abbrev pub ulong_mod : ℕ
ulong_mod = 2 ^ 64

abbrev pub ulong_max : ℕ
ulong_max = 2 ^ 64 - 1

-- The value of a digit in some base up to 36.
unfoldable pub digit_value : ℕ → Option ℕ
digit_value c =
    if leb b'0' c && leb c b'9'
    then some (c - b'0')
    else if leb b'a' c && leb c b'z'
    then some (c - b'a' + 10)
    else if leb b'A' c && leb c b'Z'
    then some (c - b'A' + 10)
    else none

unfoldable pub digit_in : ℕ → ℕ → Option ℕ
unfolding digit_value
digit_in base c = elim (digit_value c) [
  | none ↦ none
  | some v ↦ if ltb v base then some v else none
]

-- The digits in front, behind an accumulator, and what follows them.
unfoldable pub scan : ℕ → ℕ → Bytes → ℕ × Bytes
unfolding digit_in
scan base acc [] = (acc, [])
scan base acc (c ∷ s) = elim (digit_in base c) [
  | none ↦ (acc, c ∷ s)
  | some v ↦ scan base (acc * base + v) s
]

unfoldable pub is_space : ℕ → Bool
is_space c = c == b' ' || leb 9 c && leb c 13

unfoldable pub skip_spaces : Bytes → Bytes
unfolding is_space
skip_spaces [] = []
skip_spaces (c ∷ s) = if is_space c then skip_spaces s else c ∷ s

-- An optional sign; `true` for a minus.
unfoldable pub sign : Bytes → Bool × Bytes
sign [] = (false, [])
sign (c ∷ s) = if c == b'-' then (true, s) else if c == b'+' then (false, s) else (false, c ∷ s)

-- Does a digit of the base stand in front?
unfoldable pub has_digit : ℕ → Bytes → Bool
unfolding digit_in
has_digit base [] = false
has_digit base (c ∷ s) = elim (digit_in base c) [ none ↦ false | some v ↦ true ]

-- Base 0: `0x` before a hexadecimal digit, a leading `0`, or decimal.
unfoldable pub detect_base : Bytes → ℕ × Bytes
unfolding has_digit
detect_base [] = (10, [])
detect_base (c ∷ []) = (if c == b'0' then 8 else 10, c ∷ [])
detect_base (c ∷ x ∷ s) =
    if c == b'0'
    then (if (x == b'x' || x == b'X') && has_digit 16 s then (16, s) else (8, c ∷ x ∷ s))
    else (10, c ∷ x ∷ s)

pub record Number : Type 0 where
  pub value : ℕ
  pub range_error : Bool
  pub converted : Bool
  pub rest : Bytes

-- `-` negates in the unsigned type; a value out of range is replaced by the largest.
unfoldable pub finish : Bool → ℕ × Bytes → Number
finish negative (v, rest) =
    if ltb ulong_max v
    then record { value = ulong_max; range_error = true; converted = true; rest = rest }
    else record {
      value = if negative then (ulong_mod - v) % ulong_mod else v;
      range_error = false;
      converted = true;
      rest = rest;
    }

unfoldable pub convert : Bytes → Bool → ℕ × Bytes → Number
unfolding has_digit scan finish
convert s negative (base, digits) =
    if has_digit base digits
    then finish negative (scan base 0 digits)
    else record { value = 0; range_error = false; converted = false; rest = s }

-- `strtoul(s, &end, 10)` and `strtoull(s, &end, 10)`
unfoldable pub strtoul : Bytes → Number
unfolding convert sign skip_spaces
strtoul s = let (negative, digits) = sign (skip_spaces s) in convert s negative (10, digits)

-- `strtoul(s, &end, 0)`
unfoldable pub strtoul_auto : Bytes → Number
unfolding convert sign skip_spaces detect_base
strtoul_auto s =
    let (negative, digits) = sign (skip_spaces s) in convert s negative (detect_base digits)

finish-lt : (negative : Bool) (p : ℕ × Bytes) → (finish negative p).value < ulong_mod
unfolding finish
finish-lt negative (v, rest) = ground arith

convert-lt :
    (s : Bytes) (negative : Bool) (p : ℕ × Bytes) → (convert s negative p).value < ulong_mod
unfolding convert
convert-lt s negative (base, digits) = ground (arith, finish-lt negative (scan base 0 digits))

-- The result fits the type.
pub strtoul-lt : (s : Bytes) → (strtoul s).value < ulong_mod
unfolding strtoul
strtoul-lt s = convert-lt s (sign (skip_spaces s)).0 (10, (sign (skip_spaces s)).1)

pub strtoul_auto-lt : (s : Bytes) → (strtoul_auto s).value < ulong_mod
unfolding strtoul_auto
strtoul_auto-lt s = convert-lt s (sign (skip_spaces s)).0 (detect_base (sign (skip_spaces s)).1)

-- ===== src/Libc/Printf.antt =====
-- The conversions `%u`, `%lu` and `%0wx` of snprintf, and its cut at the size of the buffer.
use cominit.Base.{
  ◌⊎◌, inl, inr, ℕ, zero, suc, ◌+◌, ◌-◌, ◌*◌, ◌/◌, ◌%◌, ◌≤◌, ◌<◌, true, false, [], ◌∷◌, ◌++◌, none,
  some, ◌≡◌, ◌≢◌, refl, ◌∙◌, arith, ltb, if◌then◌else◌, Bytes, length, take, length-append, All,
}
use cominit.Libc.Str.{Lacks}
use cominit.Libc.Strtoul.{
  ulong_mod, digit_in, scan, convert, finish, strtoul, strtoul_auto, detect_base,
}

-- The digits of `n` in front of `out`. The fuel `n + 1` is enough, since each round divides by ten.
unfoldable pub decimal_onto : ℕ → ℕ → Bytes → Bytes
decimal_onto zero n out = out
decimal_onto (suc fuel) n out =
    let more = decimal_onto fuel (n / 10) ((b'0' + n % 10) ∷ out) in
    if ltb n 10 then (b'0' + n) ∷ out else more

-- `%u` and `%lu`
unfoldable pub decimal : ℕ → Bytes
unfolding decimal_onto
decimal n = decimal_onto (suc n) n []

unfoldable pub hex_digit : ℕ → ℕ
hex_digit d = if ltb d 10 then b'0' + d else b'a' + (d - 10)

-- `%0wx`, for a value of at most `w` digits
unfoldable pub hex : ℕ → ℕ → Bytes
unfolding hex_digit
hex zero n = []
hex (suc w) n = hex w (n / 16) ++ hex_digit (n % 16) ∷ []

-- What `snprintf(buf, size, …)` leaves in a buffer of a positive size.
abbrev pub snprintf : ℕ → Bytes → Bytes
snprintf size s = take (size - 1) s

pub length-hex : (w n : ℕ) → length (hex w n) ≡ w
unfolding hex
length-hex zero n = refl
length-hex (suc w) n =
    omega (arith, length-append (hex w (n / 16)) (hex_digit (n % 16) ∷ []), length-hex w (n / 16))

abbrev IsDigit : ℕ → Type 0
IsDigit c = (b'0' ≤ c) × (c ≤ b'9')

pub digit_in_ten : (d : ℕ) → d < 10 → digit_in 10 (b'0' + d) ≡ some d
unfolding digit_in
digit_in_ten d h = ground arith

scan_step :
    (acc d : ℕ) (s : Bytes) → d < 10 → scan 10 acc ((b'0' + d) ∷ s) ≡ scan 10 (acc * 10 + d) s
unfolding scan
scan_step acc d s h = ground (arith, digit_in_ten d h)

scan-decimal_onto :
    (fuel n : ℕ) (out : Bytes) → n < fuel → scan 10 0 (decimal_onto fuel n out) ≡ scan 10 n out
unfolding decimal_onto
scan-decimal_onto zero n out h = absurd (omega arith)
scan-decimal_onto (suc fuel) n out h = ground (
  arith,
  scan_step 0 n out,
  scan-decimal_onto fuel (n / 10) ((b'0' + n % 10) ∷ out),
  scan_step (n / 10) (n % 10) out,
)

decimal_onto-IsDigit :
    (fuel n : ℕ) (out : Bytes) → All IsDigit out → All IsDigit (decimal_onto fuel n out)
unfolding decimal_onto
decimal_onto-IsDigit zero n out h = h
decimal_onto-IsDigit (suc fuel) n out h =
    let small : IsDigit (b'0' + n % 10) = omega arith in
    ground (arith, decimal_onto-IsDigit fuel (n / 10) ((b'0' + n % 10) ∷ out) (small, h))

decimal_onto-ne-nil : (fuel n : ℕ) (out : Bytes) → out ≢ [] → decimal_onto fuel n out ≢ []
unfolding decimal_onto
decimal_onto-ne-nil zero n out h = h
decimal_onto-ne-nil (suc fuel) n out h =
    ground (arith, decimal_onto-ne-nil fuel (n / 10) ((b'0' + n % 10) ∷ out) (cc))

pub decimal-ne-nil : (n : ℕ) → decimal n ≢ []
unfolding decimal
decimal-ne-nil n = ground (arith, decimal_onto-ne-nil n (n / 10) ((b'0' + n % 10) ∷ []) (cc))

pub decimal-IsDigit : (n : ℕ) → All IsDigit (decimal n)
unfolding decimal
decimal-IsDigit n = decimal_onto-IsDigit (suc n) n [] tt

pub scan-decimal : (n : ℕ) → scan 10 0 (decimal n) ≡ (n, [])
unfolding decimal
scan-decimal n = scan-decimal_onto (suc n) n [] (omega arith) ∙ (unfold scan in refl)

pub IsDigit-Lacks : (d : ℕ) (s : Bytes) → ¬ IsDigit d → All IsDigit s → Lacks d s
IsDigit-Lacks d [] h hs = tt
IsDigit-Lacks d (c ∷ s) h (hc, hs) = (λ e. h (rw (← e) hc), IsDigit-Lacks d s h hs)

-- A digit in front: neither blanks nor a sign are skipped.
strtoul-digits :
    (c : ℕ) (s : Bytes) → IsDigit c → strtoul (c ∷ s) ≡ finish false (scan 10 0 (c ∷ s))
unfolding strtoul convert
strtoul-digits c s h = ground arith

strtoul-scan : (s : Bytes) → s ≢ [] → All IsDigit s → strtoul s ≡ finish false (scan 10 0 s)
strtoul-scan [] ne h = absurd (ne refl)
strtoul-scan (c ∷ s) ne (h, hs) = strtoul-digits c s h

-- `strtoul` reads back what `%lu` prints.
pub strtoul-decimal :
    (n : ℕ)
    → n < ulong_mod
    → strtoul (decimal n) ≡ record { value = n; range_error = false; converted = true; rest = [] }
strtoul-decimal n h =
    strtoul-scan (decimal n) (decimal-ne-nil n) (decimal-IsDigit n)
    ∙ rw (scan-decimal n) (unfold finish in ground arith)

-- The first digit is not a zero.
abbrev Leads : Bytes → Type 0
Leads [] = ⊥
Leads (c ∷ s) = (b'1' ≤ c) × (c ≤ b'9')

decimal_onto-Leads : (fuel n : ℕ) (out : Bytes) → 0 < n → n < fuel → Leads (decimal_onto fuel n out)
unfolding decimal_onto
decimal_onto-Leads zero n out pos h = absurd (omega arith)
decimal_onto-Leads (suc fuel) n out pos h =
    ground (arith, decimal_onto-Leads fuel (n / 10) ((b'0' + n % 10) ∷ out))

detect_base-Leads : (s : Bytes) → Leads s → detect_base s ≡ (10, s)
unfolding detect_base
detect_base-Leads [] h = absurd h
detect_base-Leads (c ∷ []) h = ground arith
detect_base-Leads (c ∷ d ∷ s) h = ground arith

strtoul_auto-Leads : (s : Bytes) → Leads s → strtoul_auto s ≡ finish false (scan 10 0 s)
unfolding strtoul_auto convert
strtoul_auto-Leads [] h = absurd h
strtoul_auto-Leads (c ∷ s) h = ground (arith, detect_base-Leads (c ∷ s) h)

-- `strtoul` in base 0 reads back what `%lu` prints.
pub strtoul_auto-decimal :
    (n : ℕ)
    → n < ulong_mod
    → strtoul_auto (decimal n)
      ≡ record { value = n; range_error = false; converted = true; rest = [] }
strtoul_auto-decimal zero h = unfold strtoul_auto decimal in refl
strtoul_auto-decimal (suc n) h =
    strtoul_auto-Leads (decimal (suc n))
      (unfold decimal in decimal_onto-Leads (suc (suc n)) (suc n) [] (omega arith) (omega arith))
    ∙ rw (scan-decimal (suc n)) (unfold finish in ground arith)

decimal_onto-append :
    (fuel n : ℕ) (out rest : Bytes)
    → decimal_onto fuel n (out ++ rest) ≡ decimal_onto fuel n out ++ rest
unfolding decimal_onto
decimal_onto-append zero n out rest = refl
decimal_onto-append (suc fuel) n out rest =
    ground (arith, decimal_onto-append fuel (n / 10) ((b'0' + n % 10) ∷ out) rest)

-- A digit in front, whatever follows.
abbrev pub StartsWithDigit : Bytes → Type 0
StartsWithDigit [] = ⊥
StartsWithDigit (c ∷ s) = IsDigit c

decimal_onto-StartsWithDigit :
    (fuel n : ℕ) (out : Bytes)
    → StartsWithDigit out ⊎ (0 < fuel)
    → StartsWithDigit (decimal_onto fuel n out)
unfolding decimal_onto
decimal_onto-StartsWithDigit zero n out (inl h) = h
decimal_onto-StartsWithDigit zero n out (inr h) = absurd (omega arith)
decimal_onto-StartsWithDigit (suc fuel) n out h =
    let small : IsDigit (b'0' + n % 10) = omega arith in
    ground (arith, decimal_onto-StartsWithDigit fuel (n / 10) ((b'0' + n % 10) ∷ out) (inl small))

pub decimal-StartsWithDigit : (n : ℕ) → StartsWithDigit (decimal n)
unfolding decimal
decimal-StartsWithDigit n = decimal_onto-StartsWithDigit (suc n) n [] (inr (omega arith))

scan-decimal_before : (n : ℕ) (rest : Bytes) → scan 10 0 (decimal n ++ rest) ≡ scan 10 n rest
unfolding decimal
scan-decimal_before n rest =
    rw (← decimal_onto-append (suc n) n [] rest) (scan-decimal_onto (suc n) n rest (omega arith))

-- What follows is empty or begins with no digit.
abbrev pub Stops : Bytes → Type 0
Stops [] = Unit
Stops (c ∷ s) = ¬ ((b'0' ≤ c) × (c ≤ b'9'))

digit_in_ten-none : (c : ℕ) → ¬ IsDigit c → digit_in 10 c ≡ none
unfolding digit_in
digit_in_ten-none c h = ground arith

scan-Stops : (n : ℕ) (rest : Bytes) → Stops rest → scan 10 n rest ≡ (n, rest)
unfolding scan
scan-Stops n [] h = refl
scan-Stops n (c ∷ rest) h = rw (digit_in_ten-none c h, scan)

strtoul-before :
    (n : ℕ) (t rest : Bytes)
    → StartsWithDigit t
    → scan 10 0 (t ++ rest) ≡ (n, rest)
    → n < ulong_mod
    → strtoul (t ++ rest) ≡ record { value = n; range_error = false; converted = true; rest = rest }
strtoul-before n [] rest d e h = absurd d
strtoul-before n (c ∷ s) rest d e h =
    strtoul-digits c (s ++ rest) d ∙ rw e (unfold finish in ground arith)

-- `strtoul` reads the printed number and stops before what follows it.
pub strtoul-decimal_before :
    (n : ℕ) (rest : Bytes)
    → n < ulong_mod
    → Stops rest
    → strtoul (decimal n ++ rest)
      ≡ record { value = n; range_error = false; converted = true; rest = rest }
strtoul-decimal_before n rest h stops =
    strtoul-before n (decimal n) rest (decimal-StartsWithDigit n)
      (scan-decimal_before n rest ∙ scan-Stops n rest stops) h

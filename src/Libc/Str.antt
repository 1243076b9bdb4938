-- ===== src/Libc/Str.antt =====
-- string.h: prefixes, cuts and tokens. A C string is the list of the bytes before its NUL.
use cominit.Base.{
  ℕ, ◌+◌, ◌≤◌, ◌<◌, Bool, true, false, ◌&&◌, [], ◌∷◌, ◌++◌, Option, none, some, ◌≡◌, ◌≢◌, refl,
  arith, ◌==◌, if◌then◌else◌, Bytes, length, All,
}

-- `strncmp(s, p, strlen(p)) == 0`
unfoldable pub starts_with : Bytes → Bytes → Bool
starts_with [] s = true
starts_with (p ∷ ps) [] = false
starts_with (p ∷ ps) (c ∷ s) = c == p && starts_with ps s

-- `q = strchr(s, c); q++[0] = '\0'`: what stands before and behind the first `c`.
unfoldable pub strchr_cut : ℕ → Bytes → Option (Bytes × Bytes)
strchr_cut d [] = none
strchr_cut d (c ∷ s) =
    if c == d
    then some ([], s)
    else elim (strchr_cut d s) [ none ↦ none | some (a, b) ↦ some (c ∷ a, b) ]

-- The start of a token.
unfoldable pub skip : ℕ → Bytes → Bytes
skip d [] = []
skip d (c ∷ s) = if c == d then skip d s else c ∷ s

-- The bytes up to the delimiter, and those behind it.
unfoldable pub token : ℕ → Bytes → Bytes × Bytes
token d [] = ([], [])
token d (c ∷ s) = if c == d then ([], s) else (c ∷ (token d s).0, (token d s).1)

abbrev nonempty : Bytes × Bytes → Option (Bytes × Bytes)
nonempty ([], rest) = none
nonempty (c ∷ t, rest) = some (c ∷ t, rest)

-- `strtok_r` with one delimiter: the token and the saved state, or NULL at the end.
unfoldable pub strtok : ℕ → Bytes → Option (Bytes × Bytes)
unfolding skip token
strtok d s = nonempty (token d (skip d s))

-- `strtok_r(NULL, "", &state)`: all that is left.
unfoldable pub strtok_rest : Bytes → Option Bytes
strtok_rest [] = none
strtok_rest (c ∷ s) = some (c ∷ s)

abbrev pub Lacks : ℕ → Bytes → Type 0
Lacks d = All (λ c. c ≢ d)

pub starts_with-append : (p s : Bytes) → starts_with p (p ++ s) ≡ true
unfolding starts_with
starts_with-append [] s = refl
starts_with-append (c ∷ p) s = ground (arith, starts_with-append p s)

pub strchr_cut-append : (d : ℕ) (a b : Bytes) → Lacks d a → strchr_cut d (a ++ d ∷ b) ≡ some (a, b)
unfolding strchr_cut
strchr_cut-append d [] b h = ground arith
strchr_cut-append d (c ∷ a) b (h, hs) = ground (arith, strchr_cut-append d a b hs)

pub token-append : (d : ℕ) (a b : Bytes) → Lacks d a → token d (a ++ d ∷ b) ≡ (a, b)
unfolding token
token-append d [] b h = ground arith
token-append d (c ∷ a) b (h, hs) = ground (arith, token-append d a b hs)

pub token-end : (d : ℕ) (a : Bytes) → Lacks d a → token d a ≡ (a, [])
unfolding token
token-end d [] h = refl
token-end d (c ∷ a) (h, hs) = ground (arith, token-end d a hs)

-- A token that the delimiter ends.
pub strtok-append : (d : ℕ) (a b : Bytes) → a ≢ [] → Lacks d a → strtok d (a ++ d ∷ b) ≡ some (a, b)
unfolding strtok
strtok-append d [] b ne h = absurd (ne refl)
strtok-append d (c ∷ a) b ne (h, hs) = ground (arith, token-append d a b hs)

-- The last token.
pub strtok-end : (d : ℕ) (a : Bytes) → a ≢ [] → Lacks d a → strtok d a ≡ some (a, [])
unfolding strtok
strtok-end d [] ne h = absurd (ne refl)
strtok-end d (c ∷ a) ne (h, hs) = ground (arith, token-end d a hs)

length-skip : (d : ℕ) (s : Bytes) → length (skip d s) ≤ length s
unfolding skip
length-skip d [] = omega arith
length-skip d (c ∷ s) = ground (arith, length-skip d s)

length-token : (d : ℕ) (s : Bytes) → length (token d s).0 + length (token d s).1 ≤ length s
unfolding token
length-token d [] = omega arith
length-token d (c ∷ s) = ground (arith, length-token d s)

nonempty-shorter :
    (p : Bytes × Bytes) {t rest : Bytes} (n : ℕ)
    → length p.0 + length p.1 ≤ n
    → nonempty p ≡ some (t, rest)
    → length rest < n
nonempty-shorter ([], r) n h e = cc
nonempty-shorter (c ∷ u, r) n h e = ground arith

-- A token takes at least one byte.
pub strtok-shorter :
    (d : ℕ) (s : Bytes) {t rest : Bytes} → strtok d s ≡ some (t, rest) → length rest < length s
unfolding strtok
strtok-shorter d s e =
    nonempty-shorter (token d (skip d s)) (length s)
      (omega (arith, length-token d (skip d s), length-skip d s)) e

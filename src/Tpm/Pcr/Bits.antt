-- ===== src/Tpm/Pcr/Bits.antt =====
-- Which registers cominitTpmSelectPcr selects.
use Prim.Native.Nat.{bit_or}
use cominit.Base.{
  ℕ, zero, suc, ◌*◌, ◌/◌, ◌%◌, ◌^◌, ◌<◌, Bool, false, ◌&&◌, ◌||◌, ◌==◌, ltb, if◌then◌else◌, Option,
  some, List, Bytes, [], ◌∷◌, All, take, replicate, length, get_or, ◌≡◌, refl, ap, ◌∙◌, arith,
}
use cominit.Tpm.Pcr.Table.{has_bit, byte_size, or_small, or_bit, zero-bit}
use cominit.Tpm.Pcr.{set_at, set_pcr, select_pcr, sizeof_select}

-- Whether a register is among those of the command line, and whether its bit is set.
unfoldable pub contains : List ℕ → ℕ → Bool
contains [] j = false
contains (i ∷ pcr_seal) j = j == i || contains pcr_seal j

unfoldable pub is_selected : Bytes → ℕ → Bool
unfolding has_bit
is_selected select j = has_bit (get_or select (j / 8) 0) (j % 8)

-- A write of a bit: it stays in the array, and sets that bit alone.
record Sets (select : Bytes) (byte bit : ℕ) (o : Option Bytes) : Type 0 where
  next : Bytes
  written : o ≡ some next
  bytes : All (λ c. c < byte_size) next
  same_length : length next ≡ length select
  bits :
      (j k : ℕ)
      → k < 8
      → has_bit (get_or next j 0) k ≡ ((j == byte && k == bit) || has_bit (get_or select j 0) k)

set_at-Sets :
    (select : Bytes) (byte bit : ℕ)
    → All (λ c. c < byte_size) select
    → byte < length select
    → bit < 8
    → Sets select byte bit (set_at select byte bit)
unfolding set_at
set_at-Sets [] byte bit h l k = absurd (omega arith)
set_at-Sets (c ∷ select) zero bit (h, hs) l i = record {
  next = bit_or c (2 ^ bit) ∷ select;
  written = refl;
  bytes = (or_small c bit h i, hs);
  same_length = refl;
  bits = go;
}
  where
    go :
        (j k : ℕ)
        → k < 8
        → has_bit (get_or (bit_or c (2 ^ bit) ∷ select) j 0) k
          ≡ ((j == 0 && k == bit) || has_bit (get_or (c ∷ select) j 0) k)
    go zero k l = or_bit c bit k h i l
    go (suc j) k l = ground arith
set_at-Sets (c ∷ select) (suc byte) bit (h, hs) l i =
    let rest = set_at-Sets select byte bit hs (omega arith) i in
    record {
      next = c ∷ rest.next;
      written = rw rest.written;
      bytes = (h, rest.bytes);
      same_length = ap suc rest.same_length;
      bits = go rest.next rest.bits;
    }
  where
    go :
        (next : Bytes)
        → ((j k : ℕ)
            → k < 8
            → has_bit (get_or next j 0) k
              ≡ ((j == byte && k == bit) || has_bit (get_or select j 0) k))
        → (j k : ℕ) → k < 8
        → has_bit (get_or (c ∷ next) j 0) k
          ≡ ((j == suc byte && k == bit) || has_bit (get_or (c ∷ select) j 0) k)
    go next rest zero k l = ground arith
    go next rest (suc j) k l = ground (arith, rest j k l)

-- The bits of an array are those of a list of registers.
pub record Selects (seen : ℕ → Bool) (n : ℕ) (o : Option Bytes) : Type 0 where
  pub psel : Bytes
  pub made : o ≡ some psel
  pub small : All (λ c. c < byte_size) psel
  pub same_length : length psel ≡ n
  pub exact : (j : ℕ) → is_selected psel j ≡ seen j

place : (i j : ℕ) → (j / 8 == i / 8 && j % 8 == i % 8) ≡ (j == i)
place i j = ground arith

module _ (select : Bytes) (i : ℕ) where
  set_pcr-next :
      (first : Sets select (i / 8) (i % 8) (set_at select (i / 8) (i % 8)))
      → set_pcr select i ≡ some first.next
  unfolding set_pcr
  set_pcr-next first = first.written

  set_pcr-bits :
      (j : ℕ) (first : Sets select (i / 8) (i % 8) (set_at select (i / 8) (i % 8)))
      → is_selected first.next j ≡ ((j / 8 == i / 8 && j % 8 == i % 8) || is_selected select j)
  unfolding is_selected
  set_pcr-bits j first = first.bits (j / 8) (j % 8) (omega arith)

select_pcr-first :
    (i : ℕ) (pcr_seal : List ℕ) (select next : Bytes)
    → set_pcr select i ≡ some next
    → select_pcr (i ∷ pcr_seal) select ≡ select_pcr pcr_seal next
unfolding select_pcr
select_pcr-first i pcr_seal select next h = rw (h, select_pcr) refl

seen_before :
    (i j : ℕ) (rest : Bool) (select next : Bytes)
    → is_selected next j ≡ ((j / 8 == i / 8 && j % 8 == i % 8) || is_selected select j)
    → (rest || is_selected next j) ≡ ((j == i || rest) || is_selected select j)
seen_before i j rest select next h = ground (arith, place i j)

pub select_pcr-Selects :
    (pcr_seal : List ℕ) (select : Bytes)
    → All (λ c. c < byte_size) select
    → All (λ i. i < 8 * length select) pcr_seal
    → Selects
        (λ j. contains pcr_seal j || is_selected select j)
        (length select)
        (select_pcr pcr_seal select)
unfolding select_pcr contains
select_pcr-Selects [] select hs fits = record {
  psel = select;
  made = refl;
  small = hs;
  same_length = refl;
  exact = λ j. refl;
}
select_pcr-Selects (i ∷ pcr_seal) select hs (fit, fits) =
    let first = set_at-Sets select (i / 8) (i % 8) hs (omega arith) (omega arith) in
    let n = first.same_length in
    let rest = select_pcr-Selects pcr_seal first.next first.bytes (rw n fits) in
    record {
      psel = rest.psel;
      made =
          select_pcr-first i pcr_seal select first.next (set_pcr-next select i first) ∙ rest.made;
      small = rest.small;
      same_length = rest.same_length ∙ n;
      exact = λ j.
          rest.exact j
          ∙ seen_before i j (contains pcr_seal j) select first.next (set_pcr-bits select i j first);
    }

pub zeros-small : (n : ℕ) → All (λ c. c < byte_size) (replicate n 0)
zeros-small zero = tt
zeros-small (suc n) = (omega arith, zeros-small n)

pub zeros-length : (n : ℕ) → length {A = ℕ} (replicate n 0) ≡ n
zeros-length zero = refl
zeros-length (suc n) = ap suc (zeros-length n)

zeros-get : (n j : ℕ) → get_or {A = ℕ} (replicate n 0) j 0 ≡ 0
zeros-get zero j = refl
zeros-get (suc n) zero = refl
zeros-get (suc n) (suc j) = zeros-get n j

get-take :
    (n : ℕ) (xs : Bytes) (j : ℕ) → get_or (take n xs) j 0 ≡ (if ltb j n then get_or xs j 0 else 0)
get-take zero xs j = ground arith
get-take (suc n) [] j = ground arith
get-take (suc n) (x ∷ xs) zero = ground arith
get-take (suc n) (x ∷ xs) (suc j) = ground (arith, get-take n xs j)

pub zeros-selected : (n j : ℕ) → is_selected (replicate n 0) j ≡ false
unfolding is_selected
zeros-selected n j = rw (zeros-get n (j / 8)) (zero-bit (j % 8) (omega arith))

take-selected :
    (psel : Bytes) (j : ℕ) → is_selected (take 3 psel) j ≡ (ltb j 24 && is_selected psel j)
unfolding is_selected
take-selected psel j = ground (arith, get-take 3 psel (j / 8), zero-bit (j % 8) (omega arith))

-- For registers that fit the array of the selection, cominitTpmSelectPcr writes inside it, and the
-- selection that the TPM gets has just those of the given registers that are below 24.
pub select_pcr-exact :
    (n : ℕ) (pcr_seal : List ℕ)
    → All (λ i. i < 8 * n) pcr_seal
    → (psel : Bytes) × (select_pcr pcr_seal (replicate n 0) ≡ some psel)
      × (length psel ≡ n)
      × ((j : ℕ) → is_selected (take sizeof_select psel) j ≡ (ltb j 24 && contains pcr_seal j))
select_pcr-exact n pcr_seal fits =
    let len = zeros-length n in
    let chosen = select_pcr-Selects pcr_seal (replicate n 0) (zeros-small n) (rw len fits) in
    (
      chosen.psel,
      chosen.made,
      chosen.same_length ∙ len,
      λ j. ground (arith, take-selected chosen.psel j, chosen.exact j, zeros-selected n j),
    )

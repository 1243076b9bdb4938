-- ===== src/Tpm/Pcr/Registers.antt =====
-- The selection of PCRs as a set: neither the order nor a repetition in the list matters.
use mathlib.Core.Quot
use mathlib.Core.Quot.{Quot, Quot-set}
use cominit.Base.{
  ℕ, suc, ◌*◌, ◌+◌, ◌/◌, ◌%◌, ◌^◌, ◌<◌, ◌==◌, ◌||◌, some, List, Bytes, [], ◌∷◌, All, replicate,
  length, get_or, ◌≡◌, refl, sym, ap, ◌∙◌, arith,
}
use cominit.Tpm.Pcr.{select_pcr}
use cominit.Tpm.Pcr.Bits.{
  contains, is_selected, Selects, select_pcr-Selects, zeros-small, zeros-length, zeros-selected,
}
use cominit.Tpm.Pcr.Table.{has_bit, byte_size}

odd : (a b : ℕ) → (a % 2 == 1) ≡ (b % 2 == 1) → a % 2 ≡ b % 2
odd a b h = ground arith

-- A byte is the sum of its bits.
byte_sum :
    (c : ℕ)
    → c < 256
    → c
      ≡ c / 1 % 2
        + 2 * (c / 2 % 2)
        + 4 * (c / 4 % 2)
        + 8 * (c / 8 % 2)
        + 16 * (c / 16 % 2)
        + 32 * (c / 32 % 2)
        + 64 * (c / 64 % 2)
        + 128 * (c / 128 % 2)
byte_sum c h = omega (arith, h)

byte-ext :
    (c d : ℕ)
    → c < byte_size
    → d < byte_size
    → ((k : ℕ) → k < 8 → has_bit c k ≡ has_bit d k)
    → c ≡ d
unfolding has_bit
byte-ext c d h k same =
    byte_sum c h
    ∙ rw
        (
          odd (c / 2 ^ 0) (d / 2 ^ 0) (same 0 (omega arith)),
          odd (c / 2 ^ 1) (d / 2 ^ 1) (same 1 (omega arith)),
          odd (c / 2 ^ 2) (d / 2 ^ 2) (same 2 (omega arith)),
          odd (c / 2 ^ 3) (d / 2 ^ 3) (same 3 (omega arith)),
          odd (c / 2 ^ 4) (d / 2 ^ 4) (same 4 (omega arith)),
          odd (c / 2 ^ 5) (d / 2 ^ 5) (same 5 (omega arith)),
          odd (c / 2 ^ 6) (d / 2 ^ 6) (same 6 (omega arith)),
          odd (c / 2 ^ 7) (d / 2 ^ 7) (same 7 (omega arith)),
        )
        (sym (byte_sum d k))

bytes-ext :
    (xs ys : Bytes)
    → All (λ c. c < byte_size) xs
    → All (λ c. c < byte_size) ys
    → length xs ≡ length ys
    → ((j k : ℕ) → k < 8 → has_bit (get_or xs j 0) k ≡ has_bit (get_or ys j 0) k)
    → xs ≡ ys
bytes-ext [] [] h k same bits = refl
bytes-ext [] (d ∷ ys) h k same bits = absurd (omega arith)
bytes-ext (c ∷ xs) [] h k same bits = absurd (omega arith)
bytes-ext (c ∷ xs) (d ∷ ys) (h, hs) (k, ks) same bits =
    rw (byte-ext c d h k (bits 0), bytes-ext xs ys hs ks (omega arith) (λ j. bits (suc j))) refl

-- Two selections with the same registers are the same.
selected-ext :
    (xs ys : Bytes)
    → All (λ c. c < byte_size) xs
    → All (λ c. c < byte_size) ys
    → length xs ≡ length ys
    → ((j : ℕ) → is_selected xs j ≡ is_selected ys j)
    → xs ≡ ys
unfolding is_selected
selected-ext xs ys h k same bits = bytes-ext xs ys h k same λ j b l.
    let byte : (8 * j + b) / 8 ≡ j = omega arith in
    let bit : (8 * j + b) % 8 ≡ b = omega arith in rw (byte, bit) at (bits (8 * j + b))

-- Lists of registers that fit the array of the selection.
abbrev pub Fitting : ℕ → Type 0
Fitting n = (pcr_seal : List ℕ) × All (λ i. i < 8 * n) pcr_seal

abbrev pub SameRegisters : (n : ℕ) → Fitting n → Fitting n → Type 0
SameRegisters n x y = (j : ℕ) → contains x.0 j ≡ contains y.0 j

-- The sets of registers.
abbrev pub Registers : ℕ → Type 0
Registers n = Quot (SameRegisters n)

chosen :
    (n : ℕ) (x : Fitting n)
    → Selects
        (λ j. contains x.0 j || is_selected (replicate n 0) j)
        (length {A = ℕ} (replicate n 0))
        (select_pcr x.0 (replicate n 0))
chosen n (pcr_seal, fits) =
    select_pcr-Selects pcr_seal (replicate n 0) (zeros-small n) (rw (zeros-length n) fits)

chosen-same :
    (n : ℕ) (x y : Fitting n) → SameRegisters n x y → (chosen n x).psel ≡ (chosen n y).psel
chosen-same n x y same =
    let a = chosen n x in
    let b = chosen n y in
    selected-ext a.psel b.psel a.small b.small (a.same_length ∙ sym b.same_length)
      λ j. a.exact j ∙ ap (λ s. s || is_selected (replicate n 0) j) (same j) ∙ sym (b.exact j)

-- What a set of registers selects.
pub selection : (n : ℕ) → Registers n → Bytes
selection n = Quot.lift (hlevel) (λ x. (chosen n x).psel) (chosen-same n)

chosen-contains : (n : ℕ) (x : Fitting n) (j : ℕ) → is_selected (chosen n x).psel j ≡ contains x.0 j
chosen-contains n x j = ground (arith, (chosen n x).exact j, zeros-selected n j)

selection-injective : (n : ℕ) (r s : Registers n) → selection n r ≡ selection n s → r ≡ s
unfolding selection
selection-injective n r s =
    Quot.ind {β = λ r. selection n r ≡ selection n s → r ≡ s} (λ r. hlevel Quot-set)
      (λ x.
        Quot.ind {β = λ s. selection n (Quot.mk x) ≡ selection n s → Quot.mk x ≡ s}
          (λ s. hlevel Quot-set) (λ y e. Quot.sound (same x y e)) s)
      r
  where
    same : (x y : Fitting n) → (chosen n x).psel ≡ (chosen n y).psel → SameRegisters n x y
    same x y e j =
        sym (chosen-contains n x j) ∙ ap (λ psel. is_selected psel j) e ∙ chosen-contains n y j

-- For registers that fit the array, what cominitTpmSelectPcr selects is a function of their set, whatever
-- their order on the command line is and however often each is named; and a set with that selection is
-- this one.
pub select_pcr-Registers :
    (n : ℕ) (x : Fitting n) (s : Registers n)
    → (select_pcr x.0 (replicate n 0) ≡ some (selection n (Quot.mk x)))
      × (selection n (Quot.mk x) ≡ selection n s → Quot.mk x ≡ s)
unfolding selection
select_pcr-Registers n x s = ((chosen n x).made, selection-injective n (Quot.mk x) s)

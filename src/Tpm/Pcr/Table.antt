-- ===== src/Tpm/Pcr/Table.antt =====
-- Bits of a byte, by tables that are evaluated.
use Prim.Native.Nat.{bit_or}
use cominit.Base.{
  ℕ, zero, suc, ◌/◌, ◌%◌, ◌^◌, ◌<◌, Bool, true, false, not, ◌||◌, ◌==◌, ltb, ltb→lt, if◌then◌else◌,
  ◌≡◌, refl, arith,
}

unfoldable pub has_bit : ℕ → ℕ → Bool
has_bit c bit = c / 2 ^ bit % 2 == 1

same : Bool → Bool → Bool
same true b = b
same false b = not b

-- A test of the numbers from 0 on, for tables that are evaluated.
table : (ℕ → Bool) → ℕ → Bool
table row zero = true
table row (suc size) = if table row size then row size else false

table-entry :
    (row : ℕ → Bool) (size : ℕ) → table row size ≡ true → (i : ℕ) → i < size → row i ≡ true
unfolding table
table-entry row zero whole i fits = absurd (omega arith)
table-entry row (suc size) whole i fits =
    by_last (table row size) refl whole (λ h. table-entry row size h i)
  where
    by_last :
        (b : Bool)
        → table row size ≡ b
        → (if b then row size else false) ≡ true
        → (table row size ≡ true → i < size → row i ≡ true)
        → row i ≡ true
    by_last true e last before = grind (arith, before e)
    by_last false e last before = cc

or_row : ℕ → ℕ → ℕ → Bool
or_row c bit k = same (has_bit (bit_or c (2 ^ bit)) k) (k == bit || has_bit c k)

or_column : ℕ → ℕ → Bool
or_column bit k = table (λ c. or_row c bit k) 256

or_table : table (λ bit. table (or_column bit) 8) 8 ≡ true
unfolding table or_column or_row same has_bit
or_table = refl

small_row : ℕ → ℕ → Bool
small_row bit c = ltb (bit_or c (2 ^ bit)) 256

small_table : table (λ bit. table (small_row bit) 256) 8 ≡ true
unfolding table small_row
small_table = refl

abbrev pub byte_size : ℕ
byte_size = 256

pub or_small : (c bit : ℕ) → c < byte_size → bit < 8 → bit_or c (2 ^ bit) < byte_size
unfolding small_row
or_small c bit h k =
    let row = table-entry (λ bit. table (small_row bit) 256) 8 small_table bit k in
    ltb→lt (bit_or c (2 ^ bit)) 256 (table-entry (small_row bit) 256 row c h)

same→≡ : (a b : Bool) → same a b ≡ true → a ≡ b
unfolding same
same→≡ a b h = ground arith

pub or_bit :
    (c bit k : ℕ)
    → c < byte_size
    → bit < 8
    → k < 8
    → has_bit (bit_or c (2 ^ bit)) k ≡ (k == bit || has_bit c k)
unfolding or_row or_column
or_bit c bit k h i l =
    let row = table-entry (λ bit. table (or_column bit) 8) 8 or_table bit i in
    let column = table-entry (or_column bit) 8 row k l in
    same→≡ _ _ (table-entry (λ c. or_row c bit k) 256 column c h)

zero_table : table (λ k. same (has_bit 0 k) false) 8 ≡ true
unfolding table has_bit same
zero_table = refl

pub zero-bit : (k : ℕ) → k < 8 → has_bit 0 k ≡ false
zero-bit k h = same→≡ _ _ (table-entry (λ k. same (has_bit 0 k) false) 8 zero_table k h)

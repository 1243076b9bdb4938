-- ===== src/Tpm/Pcr.antt =====
-- cominitTpmSelectPcr: the selection of PCRs as a string of bits.
pub mod Table
pub mod Bits
pub mod Registers
use Prim.Native.Nat.{bit_or}
use cominit.Base.{ℕ, zero, suc, ◌/◌, ◌%◌, ◌^◌, Option, none, some, List, Bytes, [], ◌∷◌}
use cominit.Base.Run.{Run, Outcome, done, fault}
use cominit.Machine.{Machine}

-- `pcrSelect[i / 8] |= 1u << (i % 8)`, with `none` behind the end of the array
unfoldable pub set_at : Bytes → ℕ → ℕ → Option Bytes
set_at [] byte bit = none
set_at (c ∷ select) zero bit = some (bit_or c (2 ^ bit) ∷ select)
set_at (c ∷ select) (suc byte) bit = elim (set_at select byte bit) [
  | none ↦ none
  | some rest ↦ some (c ∷ rest)
]

unfoldable pub set_pcr : Bytes → ℕ → Option Bytes
unfolding set_at
set_pcr select pcr_index = set_at select (pcr_index / 8) (pcr_index % 8)

unfoldable pub select_pcr : List ℕ → Bytes → Option Bytes
unfolding set_pcr
select_pcr [] select = some select
select_pcr (i ∷ pcr_seal) select = elim (set_pcr select i) [
  | none ↦ none
  | some next ↦ select_pcr pcr_seal next
]

-- The part of the array that the TPM is told of: `sizeofSelect` is 3.
abbrev pub sizeof_select : ℕ
sizeof_select = 3

-- A write behind the end of the array is an access out of bounds.
abbrev pub or_fault : {A : Type 0} → Option A → Run Machine A
or_fault none m = fault m
or_fault (some a) m = done a m

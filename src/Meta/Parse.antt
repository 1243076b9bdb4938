-- ===== src/Meta/Parse.antt =====
-- cominitParseMetadata: the data block of the metadata region.
use Prim.Native.Nat.{bit_or, bit_xor}
use cominit.Base.{
  ℕ, ◌-◌, Bool, true, false, not, [], Option, none, some, ◌==◌, if◌then◌else◌, Bytes, take, codes,
  equal,
}
use cominit.Base.Run.{Run, ◌>>=◌, ◌>>◌, pure, get, guard, or_fail}
use cominit.Libc.Str.{starts_with, strchr_cut, strtok}
use cominit.Machine.{
  Machine, Kernel, cryptopt_none, cryptopt_verity, cryptopt_integrity, cryptopt_crypt,
  fstype_str_max_len, set_meta,
}
use cominit.Meta.Verity.{space, gen_verity_dm_tbl}
use cominit.Meta.Integrity.{gen_integrity_dm_tbl}

unfoldable pub read_mode : Bytes → Option Bool
unfolding equal
read_mode s =
    if equal s (codes "ro") then some true else if equal s (codes "rw") then some false else none

unfoldable pub read_crypt : Bytes → Option ℕ
unfolding equal
read_crypt s =
    if equal s (codes "plain")
    then some cryptopt_none
    else if equal s (codes "verity")
    then some cryptopt_verity
    else if equal s (codes "integrity")
    then some cryptopt_integrity
    else if equal s (codes "crypt")
    then some cryptopt_crypt
    else if equal s (codes "crypt-integrity")
    then some (bit_or cryptopt_crypt cryptopt_integrity)
    else if equal s (codes "crypt-verity")
    then some (bit_or cryptopt_crypt cryptopt_verity)
    else none

-- The four settings, each written to the structure as soon as it is read.
unfoldable pub parse_settings : Bytes → Run Machine (Unit {0})
unfolding read_mode read_crypt
parse_settings settings = do
  (version, s1) ← or_fail (strtok space settings)
  (fs_type, s2) ← or_fail (strtok space s1)
  set_meta (λ r. record r { fs_type = take (fstype_str_max_len - 1) fs_type })
  (mode, s3) ← or_fail (strtok space s2)
  ro ← or_fail (read_mode mode)
  set_meta (λ r. record r { ro = ro })
  (crypt_name, s4) ← or_fail (strtok space s3)
  crypt ← or_fail (read_crypt crypt_name)
  set_meta (λ r. record r { crypt = crypt })
  guard (not (bit_xor crypt (bit_or cryptopt_verity cryptopt_integrity) == 0))

module _ (kernel : Kernel) where
  gen_table_for : ℕ → Bytes → Run Machine (Unit {0})
  gen_table_for crypt dm_tbl_verint_str =
      if crypt == cryptopt_verity
      then gen_verity_dm_tbl dm_tbl_verint_str
      else if crypt == cryptopt_integrity
      then gen_integrity_dm_tbl kernel dm_tbl_verint_str
      else pure tt

  -- The tables are empty unless the features are exactly dm-verity or exactly dm-integrity.
  unfoldable pub gen_tables : Bytes → Run Machine (Unit {0})
  unfolding gen_table_for
  gen_tables dm_tbl_verint_str = do
    set_meta (λ r. record r { dm_table_verint = []; dm_table_crypt = [] })
    m ← get
    gen_table_for m.meta.crypt dm_tbl_verint_str

  unfoldable pub parse_metadata : Bytes → Run Machine (Unit {0})
  unfolding parse_settings gen_tables
  parse_metadata meta_str = do
    guard (starts_with (codes "1") meta_str)
    (settings, tables) ← or_fail (strchr_cut 0xFF meta_str)
    (dm_tbl_verint_str, dm_tbl_crypt_str) ← or_fail (strchr_cut 0xFF tables)
    parse_settings settings
    gen_tables dm_tbl_verint_str

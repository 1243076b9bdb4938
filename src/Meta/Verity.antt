-- ===== src/Meta/Verity.antt =====
-- cominitGenVerityDmTbl: the device mapper table of a dm-verity rootfs.
use cominit.Base.{ℕ, ◌*◌, ◌%◌, ◌∷◌, ◌++◌, ◌==◌, ltb, Bytes, length}
use cominit.Base.Run.{Run, ◌>>=◌, ◌>>◌, pure, get, guard, or_fail}
use cominit.Libc.Str.{strtok, strtok_rest}
use cominit.Libc.Strtoul.{strtoul, ulong_mod}
use cominit.Libc.Printf.{snprintf}
use cominit.Machine.{Machine, cryptopt_verity, dm_table_size_max, set_meta}

abbrev pub space : ℕ
space = b' '

-- `"%s %s %s %s"` of the version, the device path twice, and the rest of the metadata.
unfoldable pub verity_table : Bytes → Bytes → Bytes → Bytes
verity_table version path tail = version ++ (space ∷ (path ++ (space ∷ (path ++ (space ∷ tail)))))

unfoldable pub gen_verity_dm_tbl : Bytes → Run Machine (Unit {0})
gen_verity_dm_tbl dm_meta_str = do
  m ← get
  guard (m.meta.crypt == cryptopt_verity)
  (version, after_version) ← or_fail (strtok space dm_meta_str)
  tail ← or_fail (strtok_rest after_version)
  let line = verity_table version m.meta.device_path tail
  set_meta (λ r. record r { dm_table_verint = snprintf dm_table_size_max line })
  guard (ltb (length line) dm_table_size_max)
  (block_size, s1) ← or_fail (strtok space tail)
  set_meta (λ r. record r { dm_verint_data_size_bytes = (strtoul block_size).value })
  (hash_block_size, s2) ← or_fail (strtok space s1)
  (num_blocks, s3) ← or_fail (strtok space s2)
  set_meta (λ r. record r {
    dm_verint_data_size_bytes =
        (r.dm_verint_data_size_bytes * (strtoul num_blocks).value) % ulong_mod;
  })
  (hash_start, s4) ← or_fail (strtok space s3)
  (algorithm, s5) ← or_fail (strtok space s4)
  pure tt

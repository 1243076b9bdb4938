-- ===== src/Meta/Integrity.antt =====
-- cominitGenIntegrityDmTbl: the device mapper table of a dm-integrity rootfs, with the keys of its
-- options fetched from the kernel keyring.
use cominit.Base.{
  ℕ, zero, suc, ◌+◌, ◌*◌, ◌-◌, ◌%◌, Bool, ◌&&◌, ◌||◌, [], ◌∷◌, ◌++◌, Option, none, some, ◌==◌, ltb,
  leb, if◌then◌else◌, Bytes, length, take, codes,
}
use cominit.Base.Run.{Run, done, hung, fault, ◌>>=◌, ◌>>◌, pure, get, guard, or_fail}
use cominit.Keyring.{keyring_get_key}
use cominit.Libc.Str.{starts_with, strtok, strtok_rest}
use cominit.Libc.Strtoul.{strtoul, ulong_mod}
use cominit.Libc.Printf.{snprintf, decimal}
use cominit.Machine.{
  Machine, Kernel, cryptopt_integrity, dm_table_size_max, keyring_payload_max_size, set_meta,
}
use cominit.Meta.Hex.{bytes_to_hex}
use cominit.Meta.Verity.{space}

-- The options that take an optional key.
unfoldable pub has_optional_key : Bytes → Bool
unfolding starts_with
has_optional_key opt =
    starts_with (codes "internal_hash:") opt
    || starts_with (codes "journal_crypt:") opt
    || starts_with (codes "journal_mac:") opt

-- `strstr(opt, "::")`: what stands before and behind it.
unfoldable pub strstr_colons : Bytes → Option (Bytes × Bytes)
strstr_colons [] = none
strstr_colons (c ∷ []) = none
strstr_colons (c ∷ d ∷ s) =
    if c == b':' && d == b':'
    then some ([], s)
    else elim (strstr_colons (d ∷ s)) [ none ↦ none | some (a, b) ↦ some (c ∷ a, b) ]

-- The key buffer holds keyring_payload_max_size bytes.
abbrev pub in_key_buffer : ℕ → Run Machine (Unit {0})
in_key_buffer n m = if leb n keyring_payload_max_size then done tt m else fault m

-- `"%s%s "` of the option up to the first colon and the key in hexadecimal digits.
unfoldable pub key_option : Bytes → Bytes → Bytes
unfolding bytes_to_hex
key_option name key = name ++ (b':' ∷ (bytes_to_hex key ++ space ∷ []))

-- `"%s 0 - J %lu block_size:%s %s"`
unfoldable pub integrity_table : Bytes → ℕ → Bytes → Bytes → Bytes
integrity_table path opts blksize proc =
    path
    ++ (codes " 0 - J " ++ (decimal opts ++ (codes " block_size:" ++ (blksize ++ (space ∷ proc)))))

module _ (kernel : Kernel) where
  -- What one round of the loop prints.
  unfoldable pub process_key : Bytes → Option (Bytes × Bytes) → Run Machine Bytes
  unfolding keyring_get_key key_option
  process_key opt none = pure (opt ++ space ∷ [])
  process_key opt (some (name, [])) = pure (opt ++ space ∷ [])
  process_key opt (some (name, c ∷ desc)) = do
    (key_len, key_bytes) ← keyring_get_key kernel keyring_payload_max_size (c ∷ desc)
    guard (leb 1 key_len)
    in_key_buffer key_len
    pure (key_option name (take key_len key_bytes))

  unfoldable pub process_option : Bytes → Run Machine Bytes
  unfolding process_key has_optional_key strstr_colons
  process_option opt = process_key opt (if has_optional_key opt then strstr_colons opt else none)

  -- `while (opt != NULL)`, on the unread options and on what `procAddOpts` holds.
  unfoldable pub process_options : ℕ → Bytes → Bytes → Run Machine Bytes
  unfolding process_option
  process_options zero s proc m = hung m
  process_options (suc fuel) s proc m = elim (strtok space s) [
    | none ↦ done proc m
    | some (opt, rest) ↦
        (process_option opt >>= λ text.
        guard (ltb (length text) (dm_table_size_max - length proc))
        >> process_options fuel rest (proc ++ text))
          m
  ]

  unfoldable pub gen_integrity_dm_tbl : Bytes → Run Machine (Unit {0})
  gen_integrity_dm_tbl dm_meta_str = do
    m ← get
    guard (m.meta.crypt == cryptopt_integrity)
    (blocks, s1) ← or_fail (strtok space dm_meta_str)
    set_meta (λ r. record r { dm_verint_data_size_bytes = (strtoul blocks).value })
    (blksize, s2) ← or_fail (strtok space s1)
    set_meta (λ r. record r {
      dm_verint_data_size_bytes =
          (r.dm_verint_data_size_bytes * (strtoul blksize).value) % ulong_mod;
    })
    (num_opt_str, s3) ← or_fail (strtok space s2)
    let num_opts = (strtoul num_opt_str).value
    add_opts ← or_fail (strtok_rest s3)
    proc ← process_options (suc (length add_opts)) add_opts []
    now ← get
    let line = integrity_table now.meta.device_path ((num_opts + 1) % ulong_mod) blksize proc
    set_meta (λ r. record r { dm_table_verint = snprintf dm_table_size_max line })
    guard (ltb (length line) dm_table_size_max)

-- ===== src/Meta/Safety.antt =====
-- On the outcomes of cominitParseMetadata and the bounds of the structure.
use cominit.Base.{
  ℕ, zero, suc, ◌+◌, ◌-◌, ◌%◌, ◌<◌, ◌≤◌, [], ◌∷◌, ◌++◌, Option, none, some, ◌≡◌, ◌≢◌, arith, Bytes,
  length, length-take, ltb, if◌then◌else◌, take, ◌==◌, codes, Option-cases, inl, inr,
}
use cominit.Base.Run.{done}
use cominit.Base.Run.Safety.{Safe, after-Safe, or_fail-Safe, guard-Safe, guard_last-Safe}
use cominit.Libc.Str.{strtok, strtok_rest, strtok-shorter, starts_with, strchr_cut}
use cominit.Libc.Strtoul.{strtoul, strtoul-lt, ulong_mod}
use cominit.Machine.{Machine, Kernel, ok, keyctl_read, Trace}
use cominit.Keyring.{keyring_get_key}
use cominit.Meta.Integrity.{
  has_optional_key, strstr_colons, process_key, process_option, process_options,
  gen_integrity_dm_tbl, integrity_table,
}
use cominit.Meta.Parse.{read_mode, read_crypt, parse_settings, gen_tables, parse_metadata}
use cominit.Meta.Verity.{space, gen_verity_dm_tbl, verity_table}

-- Each string fits its array with its NUL, the size fits 64 bits, dm-verity and dm-integrity are
-- not combined, and the device is the given one.
pub record IsBounded (path : Bytes) (m : Machine) : Type 0 where
  pub fs_type_fits : length m.meta.fs_type ≤ 31
  pub table_fits : length m.meta.dm_table_verint ≤ 1023
  pub size_fits : m.meta.dm_verint_data_size_bytes < ulong_mod
  pub crypt_fits : m.meta.crypt ≤ 6
  pub not_combined : m.meta.crypt ≢ 3
  pub same_device : m.meta.device_path ≡ path

-- KEYCTL_READ with the size of the key buffer never reports more than the buffer holds: no key of
-- the user keyring is longer than 512 bytes.
abbrev pub KeysFit : Kernel → Type 0
KeysFit kernel =
    (trace : Trace) (id n : ℕ) (bytes : Bytes)
    → kernel trace (keyctl_read id 512) ≡ ok n bytes
    → n ≤ 512

read_crypt-fits : (s : Bytes) (c : ℕ) → read_crypt s ≡ some c → (c ≤ 6) × (c ≢ 3)
unfolding read_crypt
read_crypt-fits s c h = ground arith

module _ (path : Bytes) where
  parse_settings-Safe :
      (settings : Bytes) (m : Machine)
      → IsBounded path m
      → Safe (IsBounded path) (parse_settings settings m)
  unfolding parse_settings
  parse_settings-Safe settings m h = or_fail-Safe P (strtok space settings) _ h λ v _.
      or_fail-Safe P (strtok space v.1) _ h λ fs _.
        let fits = length-take 31 fs.0 in
        or_fail-Safe P (strtok space fs.1) _ (ground arith) λ mode _.
          or_fail-Safe P (read_mode mode.0) _ (ground arith) λ ro _.
            or_fail-Safe P (strtok space mode.1) _ (ground arith) λ name _.
              or_fail-Safe P (read_crypt name.0) _ (ground arith) λ crypt e.
                let allowed = read_crypt-fits name.0 crypt e in guard_last-Safe P _ (ground arith)
    where
      P : Machine → Type 0
      P = IsBounded path

  gen_verity_dm_tbl-Safe :
      (text : Bytes) (m : Machine)
      → IsBounded path m
      → Safe (IsBounded path) (gen_verity_dm_tbl text m)
  unfolding gen_verity_dm_tbl
  gen_verity_dm_tbl-Safe text m h = guard-Safe P (m.meta.crypt == 1) _ {s = m} h λ _.
      or_fail-Safe P (strtok space text) _ h λ v _. or_fail-Safe P (strtok_rest v.1) _ h λ tail _.
        let line = verity_table v.0 m.meta.device_path tail in
        let fits = length-take 1023 line in
        let written = record m { meta = record m.meta { dm_table_verint = take 1023 line } } in
        guard-Safe P (ltb (length line) 1024) _ {s = written} (ground arith) λ _.
          or_fail-Safe P (strtok space tail) _ (ground arith) λ block _.
            let size = strtoul-lt block.0 in
            or_fail-Safe P (strtok space block.1) _ (ground arith) λ hash_size _.
              or_fail-Safe P (strtok space hash_size.1) _ (ground arith) λ blocks _.
                or_fail-Safe P (strtok space blocks.1) _ (ground arith) λ start _.
                  or_fail-Safe P (strtok space start.1) _ (ground arith) λ algorithm _. ground arith
    where
      P : Machine → Type 0
      P = IsBounded path

module _ (path : Bytes) (kernel : Kernel) (keys : KeysFit kernel) where
  keyring_get_key-Safe :
      (desc : Bytes) (m : Machine)
      → IsBounded path m
      → Safe (IsBounded path) (keyring_get_key kernel 512 desc m)
  unfolding keyring_get_key
  keyring_get_key-Safe desc m h = ground arith

  keyring_get_key-fits :
      (desc : Bytes) (m : Machine) (p : ℕ × Bytes) (m' : Machine)
      → keyring_get_key kernel 512 desc m ≡ done p m'
      → p.0 ≤ 512
  unfolding keyring_get_key
  keyring_get_key-fits desc m p m' h = grind (arith, keys)

  process_key-Safe :
      (opt : Bytes) (found : Option (Bytes × Bytes)) (m : Machine)
      → IsBounded path m
      → Safe (IsBounded path) (process_key kernel opt found m)
  unfolding process_key
  process_key-Safe opt none m h = h
  process_key-Safe opt (some (name, [])) m h = h
  process_key-Safe opt (some (name, c ∷ desc)) m h =
      after-Safe (IsBounded path) (keyring_get_key kernel 512 (c ∷ desc) m) _
        (keyring_get_key-Safe (c ∷ desc) m h)
        λ p t e ht. let fits = keyring_get_key-fits (c ∷ desc) m p t e in ground arith

  process_option-Safe :
      (opt : Bytes) (m : Machine)
      → IsBounded path m
      → Safe (IsBounded path) (process_option kernel opt m)
  unfolding process_option
  process_option-Safe opt m h =
      process_key-Safe opt (if has_optional_key opt then strstr_colons opt else none) m h

  -- The fuel is enough, since a token takes at least one byte.
  process_options-Safe :
      (fuel : ℕ) (s proc : Bytes) (m : Machine)
      → length s < fuel
      → IsBounded path m
      → Safe (IsBounded path) (process_options kernel fuel s proc m)
  unfolding process_options
  process_options-Safe zero s proc m lt h = absurd (omega arith)
  process_options-Safe (suc fuel) s proc m lt h = elim (Option-cases (strtok space s)) [
    | inl e ↦ rw (e, Safe) h
    | inr ((opt, rest), e) ↦
        rw (e, Safe)
          (after-Safe (IsBounded path) (process_option kernel opt m) _ (process_option-Safe opt m h)
            λ text t _ ht.
              guard-Safe (IsBounded path) (ltb (length text) (1024 - length proc)) _ ht λ _.
                process_options-Safe fuel rest (proc ++ text) t
                  (omega (arith, strtok-shorter space s e)) ht)
  ]

  gen_integrity_dm_tbl-Safe :
      (text : Bytes) (m : Machine)
      → IsBounded path m
      → Safe (IsBounded path) (gen_integrity_dm_tbl kernel text m)
  unfolding gen_integrity_dm_tbl
  gen_integrity_dm_tbl-Safe text m h = guard-Safe P (m.meta.crypt == 2) _ {s = m} h λ _.
      or_fail-Safe P (strtok space text) _ h λ blocks _.
        let size = strtoul-lt blocks.0 in
        or_fail-Safe P (strtok space blocks.1) _ (ground arith) λ blksize _.
          or_fail-Safe P (strtok space blksize.1) _ (ground arith) λ num _.
            or_fail-Safe P (strtok_rest num.1) _ (ground arith) λ opts _.
              after-Safe P (process_options kernel (suc (length opts)) opts [] _) _
                (process_options-Safe (suc (length opts)) opts [] _ (omega arith) (ground arith))
                λ proc t _ ht.
                  let line =
                    integrity_table t.meta.device_path (((strtoul num.0).value + 1) % ulong_mod)
                      blksize.0 proc in
                  let fits = length-take 1023 line in guard_last-Safe P _ (ground arith)
    where
      P : Machine → Type 0
      P = IsBounded path

  gen_tables-Safe :
      (text : Bytes) (m : Machine)
      → IsBounded path m
      → Safe (IsBounded path) (gen_tables kernel text m)
  unfolding gen_tables
  gen_tables-Safe text m h =
      let cleared = record m {
        meta = record m.meta { dm_table_verint = []; dm_table_crypt = [] };
      } in
      let bounded : IsBounded path cleared = ground arith in
      ground (
        arith,
        gen_verity_dm_tbl-Safe path text cleared bounded,
        gen_integrity_dm_tbl-Safe text cleared bounded,
      )

-- With a kernel that reports no key longer than 512 bytes, parsing any metadata string returns: it
-- neither runs on nor reads or writes outside the key buffers. On success and on failure the
-- structure that was well-formed before is so after, for the same device.
pub parse_metadata-Safe :
    (kernel : Kernel) (path meta_str : Bytes) (m : Machine)
    → KeysFit kernel
    → IsBounded path m
    → Safe (IsBounded path) (parse_metadata kernel meta_str m)
unfolding parse_metadata
parse_metadata-Safe kernel path meta_str m keys h =
    guard-Safe P (starts_with (codes "1") meta_str) _ {s = m} h λ _.
      or_fail-Safe P (strchr_cut 0xFF meta_str) _ h λ cut _.
        or_fail-Safe P (strchr_cut 0xFF cut.1) _ h λ tables _.
          after-Safe P (parse_settings cut.0 m) _ (parse_settings-Safe path cut.0 m h)
            λ _ t _ ht. gen_tables-Safe path kernel keys tables.0 t ht
  where
    P : Machine → Type 0
    P = IsBounded path

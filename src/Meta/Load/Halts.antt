-- ===== src/Meta/Load/Halts.antt =====
-- cominitLoadVerifyMetadata comes to its end.
use cominit.Base.{
  ℕ, zero, suc, ◌-◌, ◌<◌, ◌≤◌, Bool, true, false, ltb, leb, if◌then◌else◌, Option, none, some,
  Bytes, [], ◌∷◌, ◌++◌, length, arith, inl, inr, Option-cases,
}
use cominit.Base.Run.{Outcome, done, failed, hung, fault}
use cominit.Base.Run.Safety.{Safe}
use cominit.Crypto.{crypto_verify_signature, verify_with_key}
use cominit.Keyring.{keyring_get_key}
use cominit.Libc.Str.{strtok, strtok-shorter}
use cominit.Machine.{
  Machine, Kernel, keyring_payload_max_size, dm_table_size_max, part_meta_data_size,
}
use cominit.Machine.Halts.{Comes, Halts, halts, >>=-Halts, >>-Halts, guard-Halts}
use cominit.Meta.Integrity.{
  has_optional_key, strstr_colons, in_key_buffer, process_key, process_option, process_options,
  gen_integrity_dm_tbl,
}
use cominit.Meta.Load.{read_loop, bin_readall, read_region, verify_and_parse, load_verify_metadata}
use cominit.Meta.Load.Reading.{ReadsFit, ReadsSome, read_loop-Safe}
use cominit.Meta.Parse.{parse_settings, gen_tables, parse_metadata}
use cominit.Meta.Verity.{space, gen_verity_dm_tbl}

pub Safe-Comes : {A : Type 0} (P : Machine → Type 0) (o : Outcome Machine A) → Safe P o → Comes o
Safe-Comes P (done a t) s = tt
Safe-Comes P (failed t) s = tt
Safe-Comes P (hung t) s = s
Safe-Comes P (fault t) s = tt

module _ (kernel : Kernel) where
  pub keyring_get_key-Halts : (size : ℕ) (desc : Bytes) → Halts (keyring_get_key kernel size desc)
  unfolding keyring_get_key
  keyring_get_key-Halts size desc = search halts depth 20

  in_key_buffer-Halts : (n : ℕ) → Halts (in_key_buffer n)
  in_key_buffer-Halts n = record { at = λ m. go (leb n keyring_payload_max_size) m }
    where
      go : (b : Bool) (m : Machine) → Comes (if b then done tt m else fault m)
      go true m = tt
      go false m = tt

  process_key-Halts :
      (opt : Bytes) (key : Option (Bytes × Bytes)) → Halts (process_key kernel opt key)
  unfolding process_key
  process_key-Halts opt none = search halts
  process_key-Halts opt (some (name, [])) = search halts
  process_key-Halts opt (some (name, c ∷ desc)) =
      search (halts, keyring_get_key-Halts, in_key_buffer-Halts) depth 20

  process_option-Halts : (opt : Bytes) → Halts (process_option kernel opt)
  unfolding process_option
  process_option-Halts opt =
      process_key-Halts opt (if has_optional_key opt then strstr_colons opt else none)

  -- A token takes at least one byte.
  process_options-Halts :
      (fuel : ℕ) (s proc : Bytes) → length s < fuel → Halts (process_options kernel fuel s proc)
  unfolding process_options
  process_options-Halts zero s proc lt = absurd (omega arith)
  process_options-Halts (suc fuel) s proc lt = record {
    at = λ m. elim (Option-cases (strtok space s)) [
      | inl e ↦ rw (e, Comes) tt
      | inr ((opt, rest), e) ↦
          rw (e, Comes)
            ((>>=-Halts (process_option-Halts opt) λ text.
                >>-Halts (guard-Halts (ltb (length text) (dm_table_size_max - length proc))) (
                  process_options-Halts fuel rest (proc ++ text)
                    (omega (arith, strtok-shorter space s e)))).at
              m)
    ];
  }

  all_options-Halts : (opts : Bytes) → Halts (process_options kernel (suc (length opts)) opts [])
  all_options-Halts opts = process_options-Halts (suc (length opts)) opts [] (omega arith)

  parse_settings-Halts : (settings : Bytes) → Halts (parse_settings settings)
  unfolding parse_settings
  parse_settings-Halts settings = search halts depth 40 fits 4000

  gen_verity-Halts : (text : Bytes) → Halts (gen_verity_dm_tbl text)
  unfolding gen_verity_dm_tbl
  gen_verity-Halts text = search halts depth 40 fits 4000

  gen_integrity-Halts : (text : Bytes) → Halts (gen_integrity_dm_tbl kernel text)
  unfolding gen_integrity_dm_tbl
  gen_integrity-Halts text = search (halts, all_options-Halts) depth 40 fits 4000

  parse_metadata-Halts : (text : Bytes) → Halts (parse_metadata kernel text)
  unfolding parse_metadata gen_tables
  parse_metadata-Halts text =
      search (halts, parse_settings-Halts, gen_verity-Halts, gen_integrity-Halts) depth 40 fits 4000

  verify_with_key-Halts :
      (bytes signature keyfile : Bytes) → Halts (verify_with_key kernel bytes signature keyfile)
  unfolding verify_with_key
  verify_with_key-Halts bytes signature keyfile = search halts depth 30 fits 4000

  verify_signature-Halts :
      (bytes signature keyfile : Bytes)
      → Halts (crypto_verify_signature kernel bytes signature keyfile)
  unfolding crypto_verify_signature
  verify_signature-Halts bytes signature keyfile =
      search (halts, verify_with_key-Halts) depth 30 fits 4000

  module _ (fit : ReadsFit kernel) (some_bytes : ReadsSome kernel) where
    read_loop-Halts :
        (rounds : ℕ) (buf : Bytes) (fd : ℕ)
        → part_meta_data_size ≤ rounds
        → Halts (read_loop kernel rounds fd buf part_meta_data_size)
    read_loop-Halts rounds buf fd enough = record {
      at = λ m. Safe-Comes _ _ (
          read_loop-Safe kernel rounds fd part_meta_data_size buf m fit some_bytes (omega arith)
            enough);
    }

    bin_readall-Halts :
        (rounds : ℕ) (buf : Bytes) (fd offset : ℕ)
        → part_meta_data_size ≤ rounds
        → Halts (bin_readall kernel rounds buf fd offset part_meta_data_size)
    unfolding bin_readall
    bin_readall-Halts rounds buf fd offset enough = search (halts, read_loop-Halts) depth 20

    read_region-Halts :
        (rounds : ℕ) → part_meta_data_size ≤ rounds → Halts (read_region kernel rounds)
    unfolding read_region
    read_region-Halts rounds enough = search (halts, bin_readall-Halts) depth 20

    pub load_verify_metadata-Halts :
        (rounds : ℕ) (keyfile : Bytes)
        → part_meta_data_size ≤ rounds
        → Halts (load_verify_metadata kernel rounds keyfile)
    unfolding load_verify_metadata verify_and_parse
    load_verify_metadata-Halts rounds keyfile enough =
        search (halts, read_region-Halts, verify_signature-Halts, parse_metadata-Halts) depth 20

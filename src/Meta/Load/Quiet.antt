-- ===== src/Meta/Load/Quiet.antt =====
-- The load of the metadata (src/meta.c, src/crypto.c) as a part of a run that does no more than a frame
-- allows, if the frame lets the structure of the metadata change.
use cominit.Base.{
  ℕ, zero, suc, ◌+◌, ◌%◌, Bool, true, false, ltb, leb, if◌then◌else◌, Option, none, some, Bytes, [],
  ◌∷◌, ◌++◌, ◌≡◌, refl, arith, length, ◌-◌,
}
use cominit.Base.Run.{done, hung, fault, state, ◌>>=◌, ◌>>◌, guard}
use cominit.Crypto.{crypto_verify_signature, verify_with_key}
use cominit.Crypto.Passphrase.Quiet.{keyring_get_key-Respects}
use cominit.Libc.Str.{strtok}
use cominit.Libc.Strtoul.{ulong_mod}
use cominit.Machine.{
  Machine, Kernel, RfsMeta, read, call_out, set_meta, keyring_payload_max_size, dm_table_size_max,
}
use cominit.Machine.Held.Neutral.{Simple, Quiet-Simple}
use cominit.Machine.Frame.{
  Frame, Respects, Quiet, respects, parses, if-Respects, pure-Respects, guard-Respects, >>-Respects,
  >>=-Respects,
}
use cominit.Meta.Integrity.{
  has_optional_key, strstr_colons, in_key_buffer, process_key, process_option, process_options,
  gen_integrity_dm_tbl,
}
use cominit.Meta.Load.{
  overwrite, read_loop, bin_readall, read_region, verify_and_parse, load_verify_metadata,
}
use cominit.Meta.Parse.{parse_settings, gen_tables, parse_metadata}
use cominit.Meta.Verity.{space, gen_verity_dm_tbl}

-- The frame reads the trace only.
abbrev pub ReadsTrace : Frame → Type 0
ReadsTrace frame = (m t : Machine) → t.trace ≡ m.trace → frame.rel m t

module _ (frame : Frame) (simple : Simple frame) (kernel : Kernel) where
  pub read_loop-Respects :
      (rounds fd : ℕ) (buf : Bytes) (len : ℕ) → Respects frame (read_loop kernel rounds fd buf len)
  unfolding read_loop
  read_loop-Respects zero fd buf len = go (ltb 0 len)
    where
      go : (b : Bool) → Respects frame (λ m. if b then hung m else done buf m)
      go true = search respects
      go false = search respects
  read_loop-Respects (suc rounds) fd buf len = go (read_loop-Respects rounds) (ltb 0 len)
    where
      go :
          ((fd : ℕ) (buf : Bytes) (len : ℕ) → Respects frame (read_loop kernel rounds fd buf len))
          → (b : Bool)
          → Respects frame (λ m. elim b [
            | false ↦ done buf m
            | true ↦
                (call_out kernel (read fd len) >>= λ p.
                read_loop kernel rounds fd
                  (overwrite buf p.1)
                  ((len + ulong_mod - p.0) % ulong_mod))
                  m
          ])
      go again false = search respects
      go again true = search (respects, again) depth 10

  pub verify_with_key-Respects :
      (bytes signature keyfile : Bytes)
      → Respects frame (verify_with_key kernel bytes signature keyfile)
  unfolding verify_with_key
  verify_with_key-Respects bytes signature keyfile = search respects depth 20

  in_key_buffer-Respects : (n : ℕ) → Respects frame (in_key_buffer n)
  in_key_buffer-Respects n = go (leb n keyring_payload_max_size)
    where
      go : (b : Bool) → Respects frame (λ m. if b then done tt m else fault m)
      go true = search respects
      go false = search respects

  process_key-Respects :
      (opt : Bytes) (key : Option (Bytes × Bytes)) → Respects frame (process_key kernel opt key)
  unfolding process_key
  process_key-Respects opt none = search respects
  process_key-Respects opt (some (name, [])) = search respects
  process_key-Respects opt (some (name, c ∷ desc)) =
      search (respects, keyring_get_key-Respects, in_key_buffer-Respects) depth 20

  process_option-Respects : (opt : Bytes) → Respects frame (process_option kernel opt)
  unfolding process_option
  process_option-Respects opt =
      process_key-Respects opt (if has_optional_key opt then strstr_colons opt else none)

  process_options-Respects :
      (fuel : ℕ) (s proc : Bytes) → Respects frame (process_options kernel fuel s proc)
  unfolding process_options
  process_options-Respects zero s proc = search respects
  process_options-Respects (suc fuel) s proc = go (process_options-Respects fuel) (strtok space s)
    where
      go :
          ((s proc : Bytes) → Respects frame (process_options kernel fuel s proc))
          → (token : Option (Bytes × Bytes))
          → Respects frame (λ m. elim token [
            | none ↦ done proc m
            | some (opt, rest) ↦
                (process_option kernel opt >>= λ text.
                guard (ltb (length text) (dm_table_size_max - length proc))
                >> process_options kernel fuel rest (proc ++ text))
                  m
          ])
      go again none = search respects
      go again (some (opt, rest)) =
          >>=-Respects frame (process_option-Respects opt)
            λ text. >>-Respects frame (guard-Respects frame _) (again rest (proc ++ text))

  verity-trace : (text : Bytes) (m : Machine) → (state (gen_verity_dm_tbl text m)).trace ≡ m.trace
  unfolding gen_verity_dm_tbl
  verity-trace text m = ground arith

  module _ (reads : ReadsTrace frame) where
    sets : (f : RfsMeta → RfsMeta) → Respects frame (set_meta f)
    sets f = record { at = λ m. reads m _ refl }

    parse_settings-Respects : (settings : Bytes) → Respects frame (parse_settings settings)
    unfolding parse_settings
    parse_settings-Respects settings = search (parses, sets) depth 40 fits 4000

    gen_verity-Respects : (text : Bytes) → Respects frame (gen_verity_dm_tbl text)
    unfolding gen_verity_dm_tbl
    gen_verity-Respects text = record { at = λ m. reads m _ (verity-trace text m) }

    gen_integrity-Respects : (text : Bytes) → Respects frame (gen_integrity_dm_tbl kernel text)
    unfolding gen_integrity_dm_tbl
    gen_integrity-Respects text = search (parses, sets, process_options-Respects) depth 40

    pub parse_metadata-Respects : (text : Bytes) → Respects frame (parse_metadata kernel text)
    unfolding parse_metadata gen_tables
    parse_metadata-Respects text =
        search
          (
            parses, sets, parse_settings-Respects, gen_verity-Respects, gen_integrity-Respects,
            if-Respects, pure-Respects,
          )
          depth 40

module _ (frame : Frame) (quiet : Quiet frame) (kernel : Kernel) where
  read_region-Respects : (rounds : ℕ) → Respects frame (read_region kernel rounds)
  unfolding read_region bin_readall
  read_region-Respects rounds = search (respects, Quiet-Simple, read_loop-Respects) depth 20

  crypto_verify_signature-Respects :
      (bytes signature keyfile : Bytes)
      → Respects frame (crypto_verify_signature kernel bytes signature keyfile)
  unfolding crypto_verify_signature
  crypto_verify_signature-Respects bytes signature keyfile =
      search (respects, Quiet-Simple, verify_with_key-Respects) depth 20

  module _ (reads : ReadsTrace frame) where
    pub load_verify_metadata-Respects :
        (rounds : ℕ) (keyfile : Bytes) → Respects frame (load_verify_metadata kernel rounds keyfile)
    unfolding load_verify_metadata verify_and_parse
    load_verify_metadata-Respects rounds keyfile =
        search
          (
            respects, Quiet-Simple, read_region-Respects, crypto_verify_signature-Respects,
            parse_metadata-Respects,
          )
          depth 20

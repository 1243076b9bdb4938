-- ===== src/Cli.antt =====
-- src/cominit.c, the argument vector, with the options of src/tpm.c that it sets.
pub mod Bounds
pub mod Options
pub mod Tpm
use cominit.Base.{
  ℕ, zero, suc, ◌+◌, ◌-◌, Bool, true, false, not, ◌&&◌, ◌||◌, List, [], ◌∷◌, ◌++◌, Option, none,
  some, ltb, leb, ◌==◌, if◌then◌else◌, Bytes, codes, length, drop, get_or, equal,
}
use cominit.Base.Run.{Run, Outcome, done, failed, hung, fault, state, after, ◌>>=◌, ◌>>◌, pure}
use cominit.Libc.Str.{starts_with}
use cominit.Libc.Strtoul.{Number, strtoul, strtoul_auto}
use cominit.Machine.{rootfs_dev_path_max}
use cominit.Output.{parse_log_level, level_invalid, at_end}

-- cominitCliArgs_t. `pcr_seal` is the part of the array that `pcrSealCount` counts.
pub record CliArgs : Type 0 where
  pub pcr_set : Bool
  pub pcr_index : ℕ
  pub pcr_seal : List ℕ
  pub dev_node_blob : Bytes
  pub dev_node_crypt : Bytes
  pub enable_selinux : Bool
  pub enable_enforce_mode : Bool
  pub dev_node_root_fs : Bytes
  pub visible_log_level : ℕ

-- The initialiser at the top of `main`.
abbrev pub initial_args : CliArgs
initial_args = record {
  pcr_set = false;
  pcr_index = 0;
  pcr_seal = [];
  dev_node_blob = [];
  dev_node_crypt = [];
  enable_selinux = false;
  enable_enforce_mode = false;
  dev_node_root_fs = [];
  visible_log_level = level_invalid;
}

-- cominitParamCheck
unfoldable pub param_check : Bytes → Bytes → Bytes → Bool
param_check input cmp_short cmp_long = equal input cmp_short || equal input cmp_long

-- `strncmp(arg, key, klen) == 0 && arg[klen] == '='`
unfoldable pub has_key : Bytes → Bytes → Bool
has_key arg key = starts_with key arg && get_or (drop (length key) arg) 0 0 == b'='

-- cominitParseArgValue
unfoldable pub parse_arg_value : Bytes → Bytes → Bytes → Option Bytes
unfolding has_key
parse_arg_value arg key1 key2 =
    if has_key arg key1
    then some (drop (length key1 + 1) arg)
    else if has_key arg key2
    then some (drop (length key2 + 1) arg)
    else none

-- cominitParseDeviceNode: the new value of the device, if it is accepted.
unfoldable pub parse_device_node : Bytes → Option Bytes
parse_device_node arg_value =
    if starts_with (codes "/dev/") arg_value
    then (if ltb (length arg_value) rootfs_dev_path_max then some arg_value else none)
    else none

unfoldable pub is_digit : ℕ → Bool
is_digit c = leb b'0' c && leb c b'9'

-- TPM2_PT_PCR_COUNT is of the TSS2 headers.
module _ (pcr_count : ℕ) where
  -- cominitTpmParsePcrIndex
  unfoldable pub tpm_parse_pcr_index : Bytes → Run CliArgs (Unit {0})
  tpm_parse_pcr_index arg_value ctx =
      let n = strtoul_auto arg_value in
      if not n.range_error && at_end n.rest && ltb n.value pcr_count
      then done tt (record ctx { pcr_set = true; pcr_index = n.value })
      else failed (record ctx { pcr_set = false })

  -- `while (*p)`: the indexes so far and the unread text; no index is left after an error. Each
  -- round takes at least one byte, so that the length of the text is enough fuel.
  unfoldable pub pcr_loop : ℕ → Bytes → List ℕ → List ℕ
  unfolding is_digit
  pcr_loop zero p seal = seal
  pcr_loop (suc fuel) [] seal = seal
  pcr_loop (suc fuel) (c ∷ p) seal =
      let n = strtoul (c ∷ p) in
      let next = pcr_loop fuel n.rest (seal ++ n.value ∷ []) in
      let skipped = pcr_loop fuel p seal in
      if is_digit c
      then (if not n.range_error
            && n.converted
            && ltb n.value pcr_count
            && ltb (length seal) pcr_count
          then next
          else [])
      else skipped

  -- cominitTpmParsePcrIndexes
  unfoldable pub tpm_parse_pcr_indexes : Bytes → Run CliArgs (Unit {0})
  unfolding pcr_loop
  tpm_parse_pcr_indexes arg_value ctx =
      let seal = pcr_loop (length arg_value) arg_value [] in
      let ctx' = record ctx { pcr_seal = seal } in
      if ltb 0 (length seal) then done tt ctx' else failed ctx'

  -- An option `key=value` of the loop; one that is refused goes on with the next argument.
  unfoldable pub set_option :
      Bytes → Bytes → Bytes → (Bytes → Run CliArgs (Unit {0})) → Run CliArgs (Unit {0})
  set_option arg key1 key2 set ctx = elim (parse_arg_value arg key1 key2) [
    | none ↦ done tt ctx
    | some v ↦ set v ctx
  ]

  unfoldable pub set_device : (Bytes → CliArgs → CliArgs) → Bytes → Run CliArgs (Unit {0})
  set_device store v ctx = elim (parse_device_node v) [
    | none ↦ failed ctx
    | some d ↦ done tt (store d ctx)
  ]

  unfoldable pub set_log_level : Bytes → Run CliArgs (Unit {0})
  set_log_level v ctx =
      let (accepted, level) = parse_log_level v in
      let ctx' = record ctx { visible_log_level = level } in
      if accepted then done tt ctx' else failed ctx'

  unfoldable pub set_flag : Bool → (CliArgs → CliArgs) → Run CliArgs (Unit {0})
  set_flag test set ctx = done tt (if test then set ctx else ctx)

  -- One round of the loop of `main`, behind the checks for the version and the usage.
  unfoldable pub parse_option : Bytes → Run CliArgs (Unit {0})
  parse_option arg = do
    set_option arg (codes "root") (codes "cominit.rootfs")
        (set_device (λ d ctx. record ctx { dev_node_root_fs = d }))
    set_option arg (codes "logLevel") (codes "cominit.logLevel") set_log_level
    set_flag (param_check arg (codes "selinux") (codes "cominit.selinux"))
        (λ ctx. record ctx { enable_selinux = true })
    set_flag (param_check arg (codes "enforcing") (codes "cominit.enforcing"))
        (λ ctx. record ctx { enable_enforce_mode = true })
    set_option arg (codes "pcrExtend") (codes "cominit.pcrExtend") tpm_parse_pcr_index
    set_option arg (codes "blob") (codes "cominit.blob")
        (set_device (λ d ctx. record ctx { dev_node_blob = d }))
    set_option arg (codes "pcrSeal") (codes "cominit.pcrSeal") tpm_parse_pcr_indexes
    set_option arg (codes "crypt") (codes "cominit.crypt")
        (set_device (λ d ctx. record ctx { dev_node_crypt = d }))

  -- The loop of `main`; `none` is its early return for the version or the usage.
  unfoldable pub parse_args : List Bytes → CliArgs → Option CliArgs
  parse_args [] ctx = some ctx
  parse_args (arg ∷ args) ctx =
      let rest = parse_args args (state (parse_option arg ctx)) in
      if param_check arg (codes "-V") (codes "--version")
        || param_check arg (codes "-h") (codes "--help")
      then none
      else rest

-- ===== src/Tests/Options.antt =====
-- Arguments and messages, and the theorems on them.
use cominit.Base.{
  All, ℕ, ◌<◌, ◌∷◌, [], ◌≡◌, ◌≢◌, ◌⊎◌, refl, true, false, some, List, Bytes, codes, arith, equal,
}
use cominit.Base.Run.{done}
use cominit.Libc.Printf.{decimal}
use cominit.Libc.Str.{starts_with}
use cominit.Libc.Strtoul.{strtoul, strtoul_auto}
use cominit.Output.{parse_log_level, set_visible_log_level}
use cominit.Output.Laws.{parse_log_level-decimal, set_visible_log_level-parse_log_level}
use cominit.Cli
use cominit.Cli.Bounds.{IsBounded, parse_args-IsBounded}
use cominit.Cli.Tpm.{use_tpm, tpm_extend_enabled, tpm_secure_storage_enabled, parse_args-use_tpm}
use cominit.Cli.Options.{render_seal, tpm_parse_pcr_indexes-render_seal}

parse_log_level-decimal_example : parse_log_level (decimal 4294967299) ≡ (true, 3)
parse_log_level-decimal_example = parse_log_level-decimal 4294967299 (omega arith)

set_visible_log_level-parse_log_level_example :
    (set_visible_log_level (parse_log_level (codes "9")).1 < 6)
    × ((parse_log_level (codes "9")).0 ≡ false
        → set_visible_log_level (parse_log_level (codes "9")).1 ≡ 3)
set_visible_log_level-parse_log_level_example = set_visible_log_level-parse_log_level (codes "9")

-- Level 2 is not the sensitive one.
abbrev SensitiveLevel : Type 0
SensitiveLevel = ◌≢◌ {A = ℕ} 2 5

abbrev args : List Bytes
args =
    codes "init"
    ∷ codes "cominit.rootfs=/dev/sda2"
    ∷ codes "pcrSeal=0,7"
    ∷ codes "logLevel=2"
    ∷ codes "selinux"
    ∷ []

abbrev parsed : Cli.CliArgs
parsed = record Cli.initial_args {
  pcr_seal = 0 ∷ 7 ∷ [];
  dev_node_root_fs = codes "/dev/sda2";
  visible_log_level = 2;
  enable_selinux = true;
}

parse_args-done : Cli.parse_args 24 args Cli.initial_args ≡ some parsed
unfolding Cli.parse_args Cli.param_check equal Cli.parse_option Cli.set_option Cli.parse_arg_value
    starts_with Cli.set_flag Cli.set_log_level parse_log_level strtoul_auto
    Cli.tpm_parse_pcr_indexes strtoul Cli.set_device Cli.parse_device_node
parse_args-done = refl

parse_args-IsBounded_example : IsBounded 24 parsed
parse_args-IsBounded_example = parse_args-IsBounded 24 args parsed parse_args-done

tpm_parse_pcr_indexes-render_seal_example :
    Cli.tpm_parse_pcr_indexes 24 (render_seal (0 ∷ 7 ∷ [])) Cli.initial_args
    ≡ done tt (record Cli.initial_args { pcr_seal = 0 ∷ 7 ∷ [] })
tpm_parse_pcr_indexes-render_seal_example =
    tpm_parse_pcr_indexes-render_seal 24 (0 ∷ 7 ∷ []) Cli.initial_args (ground arith) (omega arith)
      ((omega arith, omega arith), ((omega arith, omega arith), tt))

-- Sealing against two registers, with both devices.
abbrev sealing : List Bytes
sealing = codes "pcrSeal=0,7" ∷ codes "blob=/dev/sda3" ∷ codes "crypt=/dev/sda4" ∷ []

abbrev sealed : Cli.CliArgs
sealed = record Cli.initial_args {
  pcr_seal = 0 ∷ 7 ∷ [];
  dev_node_blob = codes "/dev/sda3";
  dev_node_crypt = codes "/dev/sda4";
}

parse_args-sealing : Cli.parse_args 24 sealing Cli.initial_args ≡ some sealed
unfolding Cli.parse_args Cli.param_check equal Cli.parse_option Cli.set_option Cli.parse_arg_value
    starts_with Cli.set_flag Cli.set_log_level parse_log_level strtoul_auto
    Cli.tpm_parse_pcr_indexes strtoul Cli.set_device Cli.parse_device_node
parse_args-sealing = refl

use_tpm-sealed : use_tpm sealed ≡ true
unfolding use_tpm tpm_extend_enabled tpm_secure_storage_enabled
use_tpm-sealed = refl

parse_args-use_tpm_example :
    ((sealed.pcr_set ≡ true) × (sealed.pcr_index < 24))
    ⊎ ((sealed.pcr_seal ≢ [])
        × All (λ i. i < 24) sealed.pcr_seal
        × (sealed.dev_node_blob ≢ [])
        × (sealed.dev_node_crypt ≢ []))
parse_args-use_tpm_example = parse_args-use_tpm 24 sealing sealed parse_args-sealing use_tpm-sealed

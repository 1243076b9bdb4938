-- ===== src/Boot/Protect/Order.antt =====
-- What the TPM is used for leaves the structure of the metadata as it is.
use cominit.Base.{ℕ, Bool, true, false, Option, none, some, Bytes, ◌≡◌, refl}
use cominit.Base.Run.{state}
use cominit.Automount.Disk.{GptDisk}
use cominit.Automount.Quiet.{
  Quiet-Probing, find_partition-Respects, find_partition_on_disk-Respects,
}
use cominit.Boot.Protect.{
  TpmBuild, look_for_storage, find_secure_storage, extend_if_enabled, protect_if_enabled,
  use_ready_tpm, run_tpm, protect_storage,
}
use cominit.Cli.{CliArgs}
use cominit.Machine.{Machine, Kernel, Call}
use cominit.Machine.Held.Neutral.{Quiet-Simple}
use cominit.Machine.Frame.{Frame, Respects, Quiet, GivesBack, respects}
use cominit.Machine.Frame.Added.{keeps}
use cominit.Securememory.{TpmState, tpm_failure, tpm_policy_failure, unsealed, sealed}
use cominit.Securememory.Quiet.{
  securememory_create_luks_volume-Respects, cryptsetup_open_luks_volume-Respects,
  cryptsetup_add_token-Respects,
}
use cominit.Subprocess.Quiet.{subprocess_spawn-Respects}
use cominit.Tpm.Blob.{BlobState, blob_is_empty, blob_exists, blob_not_found}
use cominit.Tpm.Protect.{
  use_unsealed, tpm_setup_secure_storage, tpm_format_secure_storage, unseal_sealed, protect_with,
  tpm_protect_data,
}
use cominit.Tpm.Quiet.{
  init_tpm-Respects, tpm_extend_pcr-Respects, delete_tpm-Respects, tpm_setup_blob-Respects,
  tpm_seal_blob-Respects, tpm_unseal_blob-Respects, tpm_unmount_blob-Respects,
}
use cominit.Tpm.Seal.{Tss}

-- A frame that allows all calls.
abbrev pub AllowsAll : Frame → Type 0
AllowsAll frame = (c : Call) → frame.allows c ≡ true

module _ (frame : Frame) (every : AllowsAll frame) (kernel : Kernel) where
  quiet : Quiet frame
  quiet c h = every c

  gives : GivesBack frame
  gives buf = (every _, every _)

  module _ (tss : Tss) (ctx : CliArgs) where
    setup_secure_storage-Respects :
        (dev : Bytes) (first_boot : Bool)
        → Respects frame (tpm_setup_secure_storage kernel tss dev first_boot)
    unfolding tpm_setup_secure_storage tpm_format_secure_storage
    setup_secure_storage-Respects dev true =
        search
          (
            respects, securememory_create_luks_volume-Respects, cryptsetup_add_token-Respects,
            cryptsetup_open_luks_volume-Respects, subprocess_spawn-Respects, every, quiet, gives,
          )
          depth 20
    setup_secure_storage-Respects dev false =
        search (respects, cryptsetup_open_luks_volume-Respects, every, quiet) depth 20

    use_unsealed-Respects :
        (dev : Bytes) (first_boot : Bool) (state : TpmState)
        → Respects frame (use_unsealed kernel tss dev first_boot state)
    unfolding use_unsealed
    use_unsealed-Respects dev first_boot unsealed =
        search (respects, setup_secure_storage-Respects) depth 20
    use_unsealed-Respects dev first_boot tpm_failure = search respects
    use_unsealed-Respects dev first_boot tpm_policy_failure = search respects
    use_unsealed-Respects dev first_boot sealed = search respects

    unseal_sealed-Respects :
        (state : TpmState) → Respects frame (unseal_sealed kernel tss ctx.pcr_seal state)
    unfolding unseal_sealed
    unseal_sealed-Respects unsealed = search respects
    unseal_sealed-Respects tpm_failure = search respects
    unseal_sealed-Respects tpm_policy_failure = search respects
    unseal_sealed-Respects sealed = search (tpm_unseal_blob-Respects, quiet, gives)

    protect_with-Respects : (blob : BlobState) → Respects frame (protect_with kernel tss ctx blob)
    unfolding protect_with
    protect_with-Respects blob_is_empty =
        search
          (
            respects, tpm_seal_blob-Respects, unseal_sealed-Respects, use_unsealed-Respects, quiet,
            gives,
          )
          depth 20
    protect_with-Respects blob_exists =
        search (respects, tpm_unseal_blob-Respects, use_unsealed-Respects, quiet, gives) depth 20
    protect_with-Respects blob_not_found = search respects

    pub tpm_protect_data-Respects : Respects frame (tpm_protect_data kernel tss ctx)
    unfolding tpm_protect_data
    tpm_protect_data-Respects =
        search
          (
            respects, Quiet-Simple, tpm_setup_blob-Respects, protect_with-Respects,
            tpm_unmount_blob-Respects, every, quiet,
          )
          depth 20

  look_for_storage-Respects :
      (rounds : ℕ) (disk : Option GptDisk) → Respects frame (look_for_storage kernel rounds disk)
  unfolding look_for_storage
  look_for_storage-Respects rounds none = search (respects, find_partition-Respects, quiet) depth 20
  look_for_storage-Respects rounds (some disk) =
      search
        (respects, find_partition-Respects, find_partition_on_disk-Respects, Quiet-Probing, quiet)
        depth 20

  pub find_secure_storage-Respects :
      (rounds : ℕ) (disk : Option GptDisk) (ctx : CliArgs)
      → Respects frame (find_secure_storage kernel rounds disk ctx)
  unfolding find_secure_storage
  find_secure_storage-Respects rounds disk ctx =
      search (respects, look_for_storage-Respects) depth 20

  pub use_ready_tpm-Respects :
      (tss : Tss) (ctx : CliArgs) (ready : Bool)
      → Respects frame (use_ready_tpm kernel tss ctx ready)
  unfolding use_ready_tpm extend_if_enabled protect_if_enabled
  use_ready_tpm-Respects tss ctx ready =
      search (respects, tpm_extend_pcr-Respects, tpm_protect_data-Respects, quiet) depth 20

  run_tpm-Respects : (tpm : TpmBuild) (ctx : CliArgs) → Respects frame (run_tpm kernel tpm ctx)
  unfolding run_tpm
  run_tpm-Respects tpm ctx =
      search
        (
          respects, Quiet-Simple, init_tpm-Respects, use_ready_tpm-Respects, delete_tpm-Respects,
          quiet,
        )
        depth 20

  pub protect_storage-Respects :
      (tpm : Option TpmBuild) (rounds : ℕ) (disk : Option GptDisk) (ctx : CliArgs)
      → Respects frame (protect_storage kernel tpm rounds disk ctx)
  unfolding protect_storage
  protect_storage-Respects none rounds disk ctx = search respects
  protect_storage-Respects (some tpm) rounds disk ctx =
      search (respects, find_secure_storage-Respects, run_tpm-Respects) depth 20

pub protect_storage-meta :
    (kernel : Kernel) (tpm : Option TpmBuild) (rounds : ℕ) (disk : Option GptDisk) (ctx : CliArgs)
    (m : Machine)
    → (state (protect_storage kernel tpm rounds disk ctx m)).meta ≡ m.meta
protect_storage-meta kernel tpm rounds disk ctx m =
    let kept =
      protect_storage-Respects (keeps (λ _. true)) (λ c. refl) kernel tpm rounds disk ctx in
    (kept.at m).1

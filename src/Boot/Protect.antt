-- ===== src/Boot/Protect.antt =====
-- What main does with the TPM, in a build with it: the partition of the secure storage is looked for,
-- the TPM measures the key and protects the storage, and the storage is mounted into the rootfs.
pub mod Order
pub mod Started
use cominit.Base.{
  ℕ, Bool, true, false, if◌then◌else◌, ltb, length, Option, none, some, Bytes, [], ◌∷◌, codes,
}
use cominit.Base.Run.{Run, ◌>>=◌, ◌>>◌, pure, attempted}
use cominit.Automount.Disk.{GptDisk, find_partition_on_disk}
use cominit.Automount.Search.{find_partition}
use cominit.Cli.{CliArgs}
use cominit.Cli.Tpm.{use_tpm, tpm_extend_enabled, tpm_secure_storage_enabled}
use cominit.Machine.{Machine, Kernel, rootfs_dev_path_max}
use cominit.Securememory.{TpmState}
use cominit.Tpm.Context.{TpmContext, init_tpm, tpm_extend_pcr, delete_tpm}
use cominit.Tpm.Protect.{tpm_protect_data, tpm_mount_secure_storage}
use cominit.Tpm.Seal.{Tss}

-- COMINIT_ROOTFS_KEY_LOCATION
abbrev pub rootfs_key_location : Bytes
rootfs_key_location = codes "/etc/rootfs_key_pub.pem"

-- COMINIT_SECURE_STORAGE_GUID_TYPE
abbrev pub secure_storage_guid_type : Bytes
secure_storage_guid_type = codes "CA7D7CCB-63ED-4C53-861C-1742536059CC"

-- COMINIT_USE_TPM: the TPM stack, and what the variable of the context holds before it is set up.
pub record TpmBuild : Type 0 where
  pub tss : Tss
  pub tpm_ctx : TpmContext

-- The crypt device of the command line, or the one that was found.
abbrev pub with_crypt : CliArgs → Option Bytes → CliArgs
with_crypt ctx none = ctx
with_crypt ctx (some device) = record ctx { dev_node_crypt = device }

module _ (kernel : Kernel) where
  -- On the disk of the rootfs if it was found on one.
  unfoldable pub look_for_storage : ℕ → Option GptDisk → Run Machine Bytes
  look_for_storage rounds none =
      find_partition kernel secure_storage_guid_type rootfs_dev_path_max rounds >>= λ found.
      pure (found.1)
  look_for_storage rounds (some disk) =
      if ltb 0 (length disk.disk_name)
      then find_partition_on_disk kernel disk secure_storage_guid_type rootfs_dev_path_max
      else (find_partition kernel secure_storage_guid_type rootfs_dev_path_max rounds >>= λ found.
          pure (found.1))

  unfoldable pub find_secure_storage : ℕ → Option GptDisk → CliArgs → Run Machine CliArgs
  unfolding look_for_storage
  find_secure_storage rounds disk ctx =
      if ltb 0 (length ctx.dev_node_crypt)
      then pure ctx
      else (attempted (look_for_storage rounds disk) >>= λ found. pure (with_crypt ctx found))

  -- A failure is only printed.
  unfoldable pub extend_if_enabled : CliArgs → Run Machine (Unit {0})
  extend_if_enabled ctx =
      if tpm_extend_enabled ctx
      then (attempted (tpm_extend_pcr kernel rootfs_key_location ctx.pcr_index) >> pure tt)
      else pure tt

  -- The state is only printed; cominitTpmHandlePolicyFailure has nothing to do.
  unfoldable pub protect_if_enabled : Tss → CliArgs → Run Machine (Unit {0})
  protect_if_enabled tss ctx =
      if tpm_secure_storage_enabled ctx
      then (tpm_protect_data kernel tss ctx >> pure tt)
      else pure tt

  unfoldable pub use_ready_tpm : Tss → CliArgs → Bool → Run Machine (Unit {0})
  unfolding extend_if_enabled protect_if_enabled
  use_ready_tpm tss ctx ready =
      if ready then (extend_if_enabled ctx >> protect_if_enabled tss ctx) else pure tt

  unfoldable pub run_tpm : TpmBuild → CliArgs → Run Machine (Unit {0})
  unfolding use_ready_tpm
  run_tpm tpm ctx =
      if use_tpm ctx
      then (init_tpm kernel tpm.tpm_ctx >>= λ p.
          use_ready_tpm tpm.tss ctx (p.0) >> delete_tpm kernel (p.1) >> pure tt)
      else pure tt

  -- The part before the rootfs is set up; the arguments are those that the rest of main reads.
  unfoldable pub protect_storage :
      Option TpmBuild → ℕ → Option GptDisk → CliArgs → Run Machine CliArgs
  unfolding find_secure_storage run_tpm
  protect_storage none rounds disk ctx = pure ctx
  protect_storage (some tpm) rounds disk ctx = do
    found ← find_secure_storage rounds disk ctx
    run_tpm tpm found
    pure found

  -- The part behind it, whose failure is only printed.
  unfoldable pub attach_storage : Option TpmBuild → CliArgs → Run Machine (Unit {0})
  attach_storage none ctx = pure tt
  attach_storage (some tpm) ctx =
      if tpm_secure_storage_enabled ctx
      then (tpm_mount_secure_storage kernel tpm.tss >> pure tt)
      else pure tt

-- ===== src/Tpm/Protect.antt =====
-- The secure storage: cominitTpmSetupSecureStorage, cominitTpmProtectData and
-- cominitTpmMountSecureStorage.
pub mod Existing
pub mod Kinds
pub mod Diagram
pub mod Refinement
use cominit.Base.{
  ℕ, ◌-◌, ◌^◌, Bool, true, false, if◌then◌else◌, Option, none, some, is_some, List, Bytes, [], ◌∷◌,
  codes,
}
use cominit.Base.Run.{Run, Outcome, done, ◌>>=◌, ◌>>◌, pure, attempted}
use cominit.Cli.{CliArgs}
use cominit.Cryptsetup.{cryptsetup_open_luks_volume, cryptsetup_add_token}
use cominit.Machine.{Machine, Kernel, Answer, ok, err, mount, extern}
use cominit.Securememory.{
  TpmState, tpm_failure, tpm_policy_failure, unsealed, sealed, securememory_create_luks_volume,
}
use cominit.Subprocess.{subprocess_spawn}
use cominit.Tpm.Blob.{
  BlobState, blob_is_empty, blob_exists, blob_not_found, tpm_setup_blob, tpm_unmount_blob,
  mkdir_all, s_irwxu,
}
use cominit.Tpm.Seal.{Tss, tpm_seal_blob, tpm_unseal_blob}

-- COMINIT_TPM_SECURE_STORAGE_LOCATION
abbrev pub secure_storage_location : Bytes
secure_storage_location = codes "/dev/mapper/secureStorage"

abbrev pub mkfs : Bytes
mkfs = codes "/sbin/mkfs.ext4"

abbrev pub mkfs_args : List Bytes
mkfs_args = mkfs ∷ codes "-F" ∷ secure_storage_location ∷ []

-- COMINIT_TPM_SECURE_STORAGE_MNT
abbrev pub secure_storage_mnt : Bytes
secure_storage_mnt = codes "/newroot/mnt"

-- The state, unless what follows an unsealing has failed.
abbrev pub set_up : Option (Unit {0}) → TpmState
set_up none = tpm_failure
set_up (some u) = unsealed

module _ (kernel : Kernel) (tss : Tss) where
  -- cominitTpmFormatSecureStorage
  unfoldable pub tpm_format_secure_storage : Run Machine (Unit {0})
  tpm_format_secure_storage = subprocess_spawn kernel mkfs mkfs_args

  unfoldable pub tpm_setup_secure_storage : Bytes → Bool → Run Machine (Unit {0})
  unfolding tpm_format_secure_storage
  tpm_setup_secure_storage dev_node_crypt true = do
    securememory_create_luks_volume kernel tss.sizes dev_node_crypt
    cryptsetup_add_token kernel tss.sizes.cryptsetup_dir dev_node_crypt
    cryptsetup_open_luks_volume kernel tss.sizes.cryptsetup_dir dev_node_crypt
    tpm_format_secure_storage
  tpm_setup_secure_storage dev_node_crypt false =
      cryptsetup_open_luks_volume kernel tss.sizes.cryptsetup_dir dev_node_crypt

  -- The end of both cases of `switch (blobState)`.
  unfoldable pub use_unsealed : Bytes → Bool → TpmState → Run Machine TpmState
  unfolding tpm_setup_secure_storage
  use_unsealed dev_node_crypt first_boot unsealed =
      attempted (tpm_setup_secure_storage dev_node_crypt first_boot) >>= λ made. pure (set_up made)
  use_unsealed dev_node_crypt first_boot state = pure state

  unfoldable pub unseal_sealed : List ℕ → TpmState → Run Machine TpmState
  unseal_sealed pcr_seal sealed = tpm_unseal_blob kernel tss pcr_seal
  unseal_sealed pcr_seal state = pure state

  unfoldable pub protect_with : CliArgs → BlobState → Run Machine TpmState
  unfolding use_unsealed unseal_sealed
  protect_with ctx blob_is_empty = do
    made ← tpm_seal_blob kernel tss ctx.pcr_seal
    state ← unseal_sealed ctx.pcr_seal made
    use_unsealed ctx.dev_node_crypt true state
  protect_with ctx blob_exists = do
    state ← tpm_unseal_blob kernel tss ctx.pcr_seal
    use_unsealed ctx.dev_node_crypt false state
  protect_with ctx blob_not_found = pure tpm_failure

  -- cominitTpmProtectData
  unfoldable pub tpm_protect_data : CliArgs → Run Machine TpmState
  unfolding protect_with
  tpm_protect_data ctx = do
    blob ← tpm_setup_blob kernel tss.looks_like_dir ctx.dev_node_blob
    state ← protect_with ctx blob
    tpm_unmount_blob kernel
    pure state

  -- cominitTpmMountSecureStorage: 0, EXIT_FAILURE, or -EXIT_FAILURE as a 32-bit number
  unfoldable pub tpm_mount_secure_storage : Run Machine ℕ
  tpm_mount_secure_storage =
      attempted (mkdir_all kernel tss.looks_like_dir secure_storage_mnt s_irwxu) >>= λ made.
      if is_some made
      then (extern kernel (mount secure_storage_location secure_storage_mnt (codes "ext4") 0)
          >>= λ a. pure (elim a as (λ _. ℕ) [ ok n bytes ↦ 0 | err e ↦ 2 ^ 32 - 1 ]))
      else pure 1

-- ===== src/Tpm/Held.antt =====
-- The secure storage gives back what it gets: the stream of the blob, the handles of keys and sessions,
-- and the buffers for keys.
use cominit.Base.{ℕ, Bool, true, false, Option, none, some, List, Bytes, [], ◌∷◌}
use cominit.Cli.{CliArgs}
use cominit.Crypto.Passphrase.Held.{create_sha256_digest_from_keyfile-Releases}
use cominit.Machine.{Kernel, Handle, tr, tr_none, tr_unset}
use cominit.Machine.Held.{handle}
use cominit.Machine.Held.Balance.{Releases, Gives}
use cominit.Machine.Held.Bracket.{releases, steadies, Gives->>=}
use cominit.Machine.Held.Neutral.{neutral-Releases, neutral-Simple}
use cominit.Securememory.{TpmState, unsealed, sealed, tpm_failure, tpm_policy_failure}
use cominit.Securememory.Held.{
  securememory_esys_unseal-Releases, securememory_esys_create-Releases,
  securememory_create_luks_volume-Releases, cryptsetup_open_luks_volume-Releases,
  cryptsetup_add_token-Releases,
}
use cominit.Subprocess.Held.{subprocess_spawn-Releases}
use cominit.Tpm.Blob.{
  BlobState, blob_is_empty, blob_exists, blob_not_found, tpm_save_blob, read_blob, tpm_load_blob,
}
use cominit.Tpm.Context.{tpm_extend_pcr}
use cominit.Tpm.Protect.{
  tpm_format_secure_storage, tpm_setup_secure_storage, use_unsealed, unseal_sealed, protect_with,
  tpm_protect_data, tpm_mount_secure_storage,
}
use cominit.Tpm.Quiet.{
  or_fault-Respects, tpm_setup_blob-Respects, tpm_unmount_blob-Respects, mkdir_all-Respects,
}
use cominit.Tpm.Seal.{
  Tss, flush_both, tpm_save_primary_handle, tpm_load_primary_handle, seal_in_session,
  seal_with_primary, tpm_seal, tpm_seal_blob, unseal_in_session, unseal_loaded, tpm_unseal,
  tpm_unseal_blob,
}

module _ (kernel : Kernel) where
  pub tpm_extend_pcr-Releases :
      (keyfile : Bytes) (pcr_index : ℕ) → Releases [] (tpm_extend_pcr kernel keyfile pcr_index)
  unfolding tpm_extend_pcr
  tpm_extend_pcr-Releases keyfile pcr_index =
      search (releases, create_sha256_digest_from_keyfile-Releases) depth 20

  save_blob-Releases : (blob : Option (Bytes × Bytes)) → Releases [] (tpm_save_blob kernel blob)
  unfolding tpm_save_blob
  save_blob-Releases none = search releases depth 20
  save_blob-Releases (some (out_public, out_private)) = search (releases, steadies) depth 20

  load_blob-Releases :
      (public_size private_size : ℕ) → Releases [] (tpm_load_blob kernel public_size private_size)
  unfolding tpm_load_blob read_blob
  load_blob-Releases public_size private_size = search releases depth 20

  module _ (tss : Tss) where
    -- The session was made after the other one.
    flush_both-Gives :
        (first second : ℕ)
        → Gives (handle first ∷ handle second ∷ []) (flush_both kernel tss (tr first) (tr second))
    unfolding flush_both
    flush_both-Gives first second = search releases depth 20

    flush_unset-Gives :
        (second : ℕ) → Gives (handle second ∷ []) (flush_both kernel tss tr_unset (tr second))
    unfolding flush_both
    flush_unset-Gives second = search releases depth 20

    flush_second-Gives :
        (second : ℕ) → Gives (handle second ∷ []) (flush_both kernel tss tr_none (tr second))
    unfolding flush_both
    flush_second-Gives second = search releases depth 20

    seal_in_session-Releases :
        (pcr_seal : List ℕ) (primary sess : Handle)
        → Releases [] (seal_in_session kernel tss pcr_seal primary sess)
    unfolding seal_in_session tpm_save_primary_handle
    seal_in_session-Releases pcr_seal primary sess =
        search
          (
            releases, neutral-Releases, neutral-Simple, or_fault-Respects,
            securememory_esys_create-Releases,
          )
          depth 20

    seal_with_primary-Releases :
        (pcr_seal : List ℕ) (primary : ℕ)
        → Releases (handle primary ∷ []) (seal_with_primary kernel tss pcr_seal (tr primary))
    unfolding seal_with_primary
    seal_with_primary-Releases pcr_seal primary =
        search (releases, Gives->>=, flush_both-Gives, flush_unset-Gives, seal_in_session-Releases)
          depth 20

    tpm_seal-Releases : (pcr_seal : List ℕ) → Releases [] (tpm_seal kernel tss pcr_seal)
    unfolding tpm_seal flush_both
    tpm_seal-Releases pcr_seal = search (releases, seal_with_primary-Releases) depth 20

    pub tpm_seal_blob-Releases :
        (pcr_seal : List ℕ) → Releases [] (tpm_seal_blob kernel tss pcr_seal)
    unfolding tpm_seal_blob
    tpm_seal_blob-Releases pcr_seal =
        search (releases, tpm_seal-Releases, save_blob-Releases) depth 20

    unseal_in_session-Releases :
        (pcr_seal : List ℕ) (blob sess : Handle)
        → Releases [] (unseal_in_session kernel tss pcr_seal blob sess)
    unfolding unseal_in_session
    unseal_in_session-Releases pcr_seal blob sess =
        search
          (
            releases, neutral-Releases, neutral-Simple, or_fault-Respects,
            securememory_esys_unseal-Releases,
          )
          depth 20

    unseal_loaded-Releases :
        (pcr_seal : List ℕ) (blob : ℕ)
        → Releases (handle blob ∷ []) (unseal_loaded kernel tss pcr_seal (tr blob))
    unfolding unseal_loaded
    unseal_loaded-Releases pcr_seal blob =
        search
          (releases, Gives->>=, flush_both-Gives, flush_second-Gives, unseal_in_session-Releases)
          depth 20

    tpm_unseal-Releases :
        (pcr_seal : List ℕ) (primary : Handle) (blob : Bytes × Bytes)
        → Releases [] (tpm_unseal kernel tss pcr_seal primary blob)
    unfolding tpm_unseal flush_both
    tpm_unseal-Releases pcr_seal primary (out_public, out_private) =
        search (releases, unseal_loaded-Releases) depth 20

    pub tpm_unseal_blob-Releases :
        (pcr_seal : List ℕ) → Releases [] (tpm_unseal_blob kernel tss pcr_seal)
    unfolding tpm_unseal_blob tpm_load_primary_handle
    tpm_unseal_blob-Releases pcr_seal =
        search (releases, tpm_unseal-Releases, load_blob-Releases) depth 20

    setup_storage-Releases :
        (dev : Bytes) (first_boot : Bool)
        → Releases [] (tpm_setup_secure_storage kernel tss dev first_boot)
    unfolding tpm_setup_secure_storage tpm_format_secure_storage
    setup_storage-Releases dev true =
        search
          (
            releases, securememory_create_luks_volume-Releases, cryptsetup_add_token-Releases,
            cryptsetup_open_luks_volume-Releases, subprocess_spawn-Releases,
          )
          depth 20
    setup_storage-Releases dev false = search cryptsetup_open_luks_volume-Releases

    use_unsealed-Releases :
        (dev : Bytes) (first_boot : Bool) (s : TpmState)
        → Releases [] (use_unsealed kernel tss dev first_boot s)
    unfolding use_unsealed
    use_unsealed-Releases dev first_boot unsealed =
        search (releases, setup_storage-Releases) depth 20
    use_unsealed-Releases dev first_boot sealed = search releases
    use_unsealed-Releases dev first_boot tpm_failure = search releases
    use_unsealed-Releases dev first_boot tpm_policy_failure = search releases

    unseal_sealed-Releases :
        (pcr_seal : List ℕ) (s : TpmState) → Releases [] (unseal_sealed kernel tss pcr_seal s)
    unfolding unseal_sealed
    unseal_sealed-Releases pcr_seal sealed = search tpm_unseal_blob-Releases
    unseal_sealed-Releases pcr_seal unsealed = search releases
    unseal_sealed-Releases pcr_seal tpm_failure = search releases
    unseal_sealed-Releases pcr_seal tpm_policy_failure = search releases

    protect_with-Releases :
        (ctx : CliArgs) (b : BlobState) → Releases [] (protect_with kernel tss ctx b)
    unfolding protect_with
    protect_with-Releases ctx blob_is_empty =
        search (releases, tpm_seal_blob-Releases, unseal_sealed-Releases, use_unsealed-Releases)
          depth 20
    protect_with-Releases ctx blob_exists =
        search (releases, tpm_unseal_blob-Releases, use_unsealed-Releases) depth 20
    protect_with-Releases ctx blob_not_found = search releases

    pub tpm_protect_data-Releases : (ctx : CliArgs) → Releases [] (tpm_protect_data kernel tss ctx)
    unfolding tpm_protect_data
    tpm_protect_data-Releases ctx =
        search
          (
            releases, neutral-Releases, neutral-Simple, tpm_setup_blob-Respects,
            protect_with-Releases, tpm_unmount_blob-Respects,
          )
          depth 20

    pub tpm_mount_secure_storage-Releases : Releases [] (tpm_mount_secure_storage kernel tss)
    unfolding tpm_mount_secure_storage
    tpm_mount_secure_storage-Releases =
        search (releases, neutral-Releases, neutral-Simple, mkdir_all-Respects) depth 20

-- ===== src/Tpm/Halts.antt =====
-- The protection of the secure storage comes to its end.
use cominit.Base.{ℕ, Bool, true, false, Option, none, some, List, Bytes}
use cominit.Cli.{CliArgs}
use cominit.Crypto.Passphrase.Halts.{create_sha256_digest_from_keyfile-Halts}
use cominit.Machine.{Kernel, Handle}
use cominit.Machine.Halts.{Halts, Parents, halts}
use cominit.Securememory.{TpmState, unsealed, sealed, tpm_failure, tpm_policy_failure}
use cominit.Securememory.Halts.{
  securememory_esys_unseal-Halts, securememory_esys_create-Halts,
  securememory_create_luks_volume-Halts,
}
use cominit.Subprocess.Halts.{
  subprocess_spawn-Halts, cryptsetup_open_luks_volume-Halts, cryptsetup_add_token-Halts,
}
use cominit.Tpm.Blob.{BlobState, blob_is_empty, blob_exists, blob_not_found}
use cominit.Tpm.Context.{TpmContext, tpm_selftest, init_esys, init_tpm, tpm_extend_pcr, delete_tpm}
use cominit.Tpm.Pcr.{or_fault}
use cominit.Tpm.Protect.{
  tpm_format_secure_storage, tpm_setup_secure_storage, use_unsealed, unseal_sealed, protect_with,
  tpm_protect_data, tpm_mount_secure_storage,
}
use cominit.Tpm.Seal.{
  Tss, flush_both, tpm_save_primary_handle, tpm_load_primary_handle, seal_in_session,
  seal_with_primary, tpm_seal, tpm_seal_blob, unseal_in_session, unseal_loaded, tpm_unseal,
  tpm_unseal_blob,
}
use cominit.Tpm.Blob.Halts.{
  mkdir_all-Halts, tpm_setup_blob-Halts, tpm_save_blob-Halts, tpm_load_blob-Halts,
  tpm_unmount_blob-Halts,
}

or_fault-Halts : {A : Type 0} (o : Option A) → Halts (or_fault o)
or_fault-Halts none = record { at = λ m. tt }
or_fault-Halts (some a) = record { at = λ m. tt }

module _ (kernel : Kernel) where
  init_esys-Halts : (ctx : TpmContext) (tcti : ℕ) → Halts (init_esys kernel ctx tcti)
  unfolding init_esys tpm_selftest
  init_esys-Halts ctx tcti = search halts depth 20 fits 4000

  pub init_tpm-Halts : (ctx : TpmContext) → Halts (init_tpm kernel ctx)
  unfolding init_tpm
  init_tpm-Halts ctx = search (halts, init_esys-Halts) depth 20 fits 4000

  pub delete_tpm-Halts : (ctx : TpmContext) → Halts (delete_tpm kernel ctx)
  unfolding delete_tpm
  delete_tpm-Halts ctx = go (ctx.tcti_ctx) (ctx.esys_ctx)
    where
      go :
          (tcti esys : Option ℕ)
          → Halts (delete_tpm kernel (record { esys_ctx = esys; tcti_ctx = tcti }))
      go none esys = search halts
      go (some tcti) none = search halts
      go (some tcti) (some esys) = search halts depth 20

  pub tpm_extend_pcr-Halts :
      (keyfile : Bytes) (pcr_index : ℕ) → Halts (tpm_extend_pcr kernel keyfile pcr_index)
  unfolding tpm_extend_pcr
  tpm_extend_pcr-Halts keyfile pcr_index =
      search (halts, create_sha256_digest_from_keyfile-Halts) depth 20 fits 4000

  module _ (tss : Tss) where
    flush_both-Halts : (first second : Handle) → Halts (flush_both kernel tss first second)
    unfolding flush_both
    flush_both-Halts first second = search halts

    seal_in_session-Halts :
        (pcr_seal : List ℕ) (primary sess : Handle)
        → Halts (seal_in_session kernel tss pcr_seal primary sess)
    unfolding seal_in_session tpm_save_primary_handle
    seal_in_session-Halts pcr_seal primary sess =
        search (halts, or_fault-Halts, securememory_esys_create-Halts) depth 30 fits 4000

    seal_with_primary-Halts :
        (pcr_seal : List ℕ) (primary : Handle)
        → Halts (seal_with_primary kernel tss pcr_seal primary)
    unfolding seal_with_primary
    seal_with_primary-Halts pcr_seal primary =
        search (halts, flush_both-Halts, seal_in_session-Halts) depth 20 fits 4000

    tpm_seal-Halts : (pcr_seal : List ℕ) → Halts (tpm_seal kernel tss pcr_seal)
    unfolding tpm_seal
    tpm_seal-Halts pcr_seal =
        search (halts, flush_both-Halts, seal_with_primary-Halts) depth 20 fits 4000

    tpm_seal_blob-Halts : (pcr_seal : List ℕ) → Halts (tpm_seal_blob kernel tss pcr_seal)
    unfolding tpm_seal_blob
    tpm_seal_blob-Halts pcr_seal =
        search (halts, tpm_seal-Halts, tpm_save_blob-Halts) depth 20 fits 4000

    unseal_in_session-Halts :
        (pcr_seal : List ℕ) (blob sess : Handle)
        → Halts (unseal_in_session kernel tss pcr_seal blob sess)
    unfolding unseal_in_session
    unseal_in_session-Halts pcr_seal blob sess =
        search (halts, or_fault-Halts, securememory_esys_unseal-Halts) depth 20 fits 4000

    unseal_loaded-Halts :
        (pcr_seal : List ℕ) (blob : Handle) → Halts (unseal_loaded kernel tss pcr_seal blob)
    unfolding unseal_loaded
    unseal_loaded-Halts pcr_seal blob =
        search (halts, flush_both-Halts, unseal_in_session-Halts) depth 20 fits 4000

    tpm_unseal-Halts :
        (pcr_seal : List ℕ) (primary : Handle) (blob : Bytes × Bytes)
        → Halts (tpm_unseal kernel tss pcr_seal primary blob)
    unfolding tpm_unseal
    tpm_unseal-Halts pcr_seal primary (out_public, out_private) =
        search (halts, flush_both-Halts, unseal_loaded-Halts) depth 20 fits 4000

    tpm_unseal_blob-Halts : (pcr_seal : List ℕ) → Halts (tpm_unseal_blob kernel tss pcr_seal)
    unfolding tpm_unseal_blob tpm_load_primary_handle
    tpm_unseal_blob-Halts pcr_seal =
        search (halts, tpm_load_blob-Halts, tpm_unseal-Halts) depth 20 fits 4000

    pub tpm_mount_secure_storage-Halts : Halts (tpm_mount_secure_storage kernel tss)
    unfolding tpm_mount_secure_storage
    tpm_mount_secure_storage-Halts = search (halts, mkdir_all-Halts) depth 20 fits 4000

    module _ (parents : Parents kernel) where
      setup_secure_storage-Halts :
          (device : Bytes) (first_boot : Bool)
          → Halts (tpm_setup_secure_storage kernel tss device first_boot)
      unfolding tpm_setup_secure_storage tpm_format_secure_storage
      setup_secure_storage-Halts device true =
          search
            (
              halts, securememory_create_luks_volume-Halts, cryptsetup_add_token-Halts,
              cryptsetup_open_luks_volume-Halts, subprocess_spawn-Halts,
            )
            depth 20 fits 4000
      setup_secure_storage-Halts device false =
          cryptsetup_open_luks_volume-Halts kernel parents tss.sizes.cryptsetup_dir device

      use_unsealed-Halts :
          (device : Bytes) (first_boot : Bool) (state : TpmState)
          → Halts (use_unsealed kernel tss device first_boot state)
      unfolding use_unsealed
      use_unsealed-Halts device first_boot unsealed =
          search (halts, setup_secure_storage-Halts) depth 20 fits 4000
      use_unsealed-Halts device first_boot tpm_failure = search halts
      use_unsealed-Halts device first_boot tpm_policy_failure = search halts
      use_unsealed-Halts device first_boot sealed = search halts

      unseal_sealed-Halts :
          (pcr_seal : List ℕ) (state : TpmState) → Halts (unseal_sealed kernel tss pcr_seal state)
      unfolding unseal_sealed
      unseal_sealed-Halts pcr_seal sealed = tpm_unseal_blob-Halts pcr_seal
      unseal_sealed-Halts pcr_seal unsealed = search halts
      unseal_sealed-Halts pcr_seal tpm_failure = search halts
      unseal_sealed-Halts pcr_seal tpm_policy_failure = search halts

      protect_with-Halts :
          (ctx : CliArgs) (blob : BlobState) → Halts (protect_with kernel tss ctx blob)
      unfolding protect_with
      protect_with-Halts ctx blob_is_empty =
          search (halts, tpm_seal_blob-Halts, unseal_sealed-Halts, use_unsealed-Halts) depth 20 fits
            4000
      protect_with-Halts ctx blob_exists =
          search (halts, tpm_unseal_blob-Halts, use_unsealed-Halts) depth 20 fits 4000
      protect_with-Halts ctx blob_not_found = search halts

      pub tpm_protect_data-Halts : (ctx : CliArgs) → Halts (tpm_protect_data kernel tss ctx)
      unfolding tpm_protect_data
      tpm_protect_data-Halts ctx =
          search (halts, tpm_setup_blob-Halts, protect_with-Halts, tpm_unmount_blob-Halts) depth 20
            fits 4000

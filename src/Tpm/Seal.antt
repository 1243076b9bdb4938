-- ===== src/Tpm/Seal.antt =====
-- Sealing and unsealing: cominitTpmSeal, cominitTpmSealBlob, cominitTpmUnseal and
-- cominitTpmUnsealBlob. Esys_Free of what holds no secret is left out.
use cominit.Base.{
  ℕ, Bool, true, false, if◌then◌else◌, Option, none, some, is_some, List, Bytes, replicate, take,
}
use cominit.Base.Run.{Run, ◌>>=◌, ◌>>◌, pure, fail, attempted, finally}
use cominit.Machine.{
  Machine, Kernel, Handle, tr_none, tr, tr_unset, Answer, ok, err, esys_create_primary,
  esys_start_auth_session, esys_policy_pcr, esys_policy_get_digest, esys_evict_control,
  esys_flush_context, esys_load, esys_tr_from_tpm_public, extern, call, call_out,
}
use cominit.Securememory.{
  Sizes, TpmState, tpm_failure, sealed, securememory_esys_create, securememory_esys_unseal,
}
use cominit.Tpm.Blob.{tpm_save_blob, tpm_load_blob}
use cominit.Tpm.Pcr.{select_pcr, or_fault, sizeof_select}

-- What the headers of the TPM stack and the build define, and whether a `struct stat` that nothing
-- was written to looks like that of a directory.
pub record Tss : Type 0 where
  pub sizes : Sizes
  pub pcr_select_max : ℕ
  pub public_size : ℕ
  pub private_size : ℕ
  pub looks_like_dir : Bool

-- The parts of the blob, if there are any.
abbrev pub flatten : {A : Type 0} → Option (Option A) → Option A
flatten none = none
flatten (some o) = o

module _ (kernel : Kernel) (tss : Tss) where
  unfoldable pub flush_both : Handle → Handle → Run Machine Answer
  flush_both first second =
      extern kernel (esys_flush_context first) >> extern kernel (esys_flush_context second)

  -- cominitTpmSavePrimaryHandle
  unfoldable pub tpm_save_primary_handle : Handle → Run Machine ℕ
  tpm_save_primary_handle primary_handle = call kernel (esys_evict_control primary_handle)

  -- cominitTpmLoadPrimaryHandle
  unfoldable pub tpm_load_primary_handle : Run Machine ℕ
  tpm_load_primary_handle = call kernel esys_tr_from_tpm_public

  -- The check behind the creation reads `rc`, not `result`: its failure does not end the function.
  unfoldable pub seal_in_session : List ℕ → Handle → Handle → Run Machine (Option (Bytes × Bytes))
  unfolding tpm_save_primary_handle
  seal_in_session pcr_seal primary sess = do
    psel ← or_fault (select_pcr pcr_seal (replicate tss.pcr_select_max 0))
    call kernel (esys_policy_pcr sess (take sizeof_select psel))
    (_, policy_digest) ← call_out kernel (esys_policy_get_digest sess)
    made ← attempted (securememory_esys_create kernel tss.sizes primary policy_digest)
    tpm_save_primary_handle primary
    pure (flatten made)

  unfoldable pub seal_with_primary : List ℕ → Handle → Run Machine (Option (Bytes × Bytes))
  unfolding seal_in_session flush_both
  seal_with_primary pcr_seal primary = do
    a ← extern kernel (esys_start_auth_session true)
    elim a [
      | err rc ↦ flush_both tr_unset primary >> fail
      | ok sess bytes ↦
          finally (flush_both (tr sess) primary) (seal_in_session pcr_seal primary (tr sess))
    ]

  -- cominitTpmSeal
  unfoldable pub tpm_seal : List ℕ → Run Machine (Option (Bytes × Bytes))
  unfolding seal_with_primary
  tpm_seal pcr_seal = do
    a ← extern kernel esys_create_primary
    elim a [
      | err rc ↦ flush_both tr_unset tr_none >> fail
      | ok primary bytes ↦ seal_with_primary pcr_seal (tr primary)
    ]

  unfoldable pub tpm_seal_blob : List ℕ → Run Machine TpmState
  unfolding tpm_seal
  tpm_seal_blob pcr_seal = attempted (tpm_seal pcr_seal) >>= λ made. elim made [
    | none ↦ pure tpm_failure
    | some blob ↦ attempted (tpm_save_blob kernel blob) >>= λ saved.
        pure (if is_some saved then sealed else tpm_failure)
  ]

  unfoldable pub unseal_in_session : List ℕ → Handle → Handle → Run Machine TpmState
  unseal_in_session pcr_seal blob sess = do
    psel ← or_fault (select_pcr pcr_seal (replicate tss.pcr_select_max 0))
    a ← extern kernel (esys_policy_pcr sess (take sizeof_select psel))
    elim a [
      | err rc ↦ pure tpm_failure
      | ok n bytes ↦ securememory_esys_unseal kernel tss.sizes blob sess
    ]

  unfoldable pub unseal_loaded : List ℕ → Handle → Run Machine TpmState
  unfolding unseal_in_session flush_both
  unseal_loaded pcr_seal blob = do
    a ← extern kernel (esys_start_auth_session false)
    elim a [
      | err rc ↦ flush_both tr_none blob >> pure tpm_failure
      | ok sess bytes ↦
          finally (flush_both (tr sess) blob) (unseal_in_session pcr_seal blob (tr sess))
    ]

  -- cominitTpmUnseal
  unfoldable pub tpm_unseal : List ℕ → Handle → Bytes × Bytes → Run Machine TpmState
  unfolding unseal_loaded
  tpm_unseal pcr_seal primary (out_public, out_private) = do
    a ← extern kernel (esys_load primary out_private out_public)
    elim a [
      | err rc ↦ flush_both tr_none tr_none >> pure tpm_failure
      | ok blob bytes ↦ unseal_loaded pcr_seal (tr blob)
    ]

  unfoldable pub tpm_unseal_blob : List ℕ → Run Machine TpmState
  unfolding tpm_unseal tpm_load_primary_handle
  tpm_unseal_blob pcr_seal = attempted tpm_load_primary_handle >>= λ opened. elim opened [
    | none ↦ pure tpm_failure
    | some primary ↦ attempted (tpm_load_blob kernel tss.public_size tss.private_size) >>= λ read.
        elim read [ none ↦ pure tpm_failure | some blob ↦ tpm_unseal pcr_seal (tr primary) blob ]
  ]

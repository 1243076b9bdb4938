-- ===== src/Tpm/Context.antt =====
-- cominitInitTpm, cominitTpmExtendPCR and cominitDeleteTpm. cominitTpmLoadDriver does nothing.
use cominit.Base.{ℕ, Bool, true, false, Option, none, some, Bytes, codes}
use cominit.Base.Run.{Run, ◌>>=◌, ◌>>◌, pure}
use cominit.Crypto.Passphrase.{create_sha256_digest_from_keyfile, sha256_len}
use cominit.Machine.{
  Machine, Kernel, Answer, ok, err, tcti_initialize, tcti_finalize, esys_initialize, esys_finalize,
  esys_self_test, esys_pcr_extend, extern, call,
}

-- cominitTpmContext_t, with `none` for NULL
pub record TpmContext : Type 0 where
  pub esys_ctx : Option ℕ
  pub tcti_ctx : Option ℕ

-- `rc == TSS2_RC_SUCCESS`
abbrev pub is_success : Answer → Bool
is_success (ok n bytes) = true
is_success (err rc) = false

module _ (kernel : Kernel) where
  -- cominitTpmSelftest
  unfoldable pub tpm_selftest : ℕ → Run Machine Bool
  tpm_selftest esys = extern kernel (esys_self_test esys) >>= λ a. pure (is_success a)

  unfoldable pub init_esys : TpmContext → ℕ → Run Machine (Bool × TpmContext)
  unfolding tpm_selftest
  init_esys ctx tcti = do
    let with_tcti = record ctx { tcti_ctx = some tcti }
    a ← extern kernel (esys_initialize tcti)
    elim a [
      | err rc ↦ pure (false, with_tcti)
      | ok esys bytes ↦
          tpm_selftest esys >>= λ passed. pure (passed, record with_tcti { esys_ctx = some esys })
    ]

  -- The result and the context, from what the context held before.
  unfoldable pub init_tpm : TpmContext → Run Machine (Bool × TpmContext)
  unfolding init_esys
  init_tpm ctx = do
    a ← extern kernel (tcti_initialize (codes "device:/dev/tpm0"))
    elim a [ err rc ↦ pure (false, ctx) | ok tcti bytes ↦ init_esys ctx tcti ]

  unfoldable pub tpm_extend_pcr : Bytes → ℕ → Run Machine ℕ
  tpm_extend_pcr keyfile pcr_index = do
    digest ← create_sha256_digest_from_keyfile kernel keyfile sha256_len
    call kernel (esys_pcr_extend pcr_index digest)

  unfoldable pub delete_tpm : TpmContext → Run Machine Bool
  delete_tpm ctx = elim ctx.tcti_ctx [
    | none ↦ pure false
    | some tcti ↦ elim ctx.esys_ctx [
      | none ↦ pure false
      | some esys ↦
          extern kernel (tcti_finalize tcti) >> extern kernel (esys_finalize esys) >> pure true
    ]
  ]

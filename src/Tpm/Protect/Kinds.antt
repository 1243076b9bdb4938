-- ===== src/Tpm/Protect/Kinds.antt =====
-- Which states sealing and unsealing can have (src/tpm.c, src/securememory.c).
use cominit.Base.{ℕ, Bool, true, false, if◌then◌else◌, List, Bytes, ◌≡◌, refl}
use cominit.Base.Run.{◌>>=◌, ◌>>◌, pure}
use cominit.Machine.{Kernel, Handle}
use cominit.Machine.Returns.{
  Returns, pure-Returns, >>=-Returns, >>=-Returns-when, answered-Returns, tried-Returns,
  finally-Returns,
}
use cominit.Securememory.{
  TpmState, tpm_failure, tpm_policy_failure, sealed, give_back, store_key, securememory_esys_unseal,
}
use cominit.Tpm.Seal.{
  Tss, tpm_seal_blob, unseal_in_session, unseal_loaded, tpm_unseal, tpm_unseal_blob,
}

abbrev pub of_sealing : TpmState → Bool
of_sealing sealed = true
of_sealing tpm_failure = true
of_sealing _ = false

abbrev pub of_unsealing : TpmState → Bool
of_unsealing sealed = false
of_unsealing _ = true

refused : (b : Bool) → of_unsealing (if b then tpm_policy_failure else tpm_failure) ≡ true
refused true = refl
refused false = refl

module _ (kernel : Kernel) (tss : Tss) where
  pub tpm_seal_blob-Returns :
      (pcr_seal : List ℕ) → Returns (λ s. of_sealing s ≡ true) (tpm_seal_blob kernel tss pcr_seal)
  unfolding tpm_seal_blob
  tpm_seal_blob-Returns pcr_seal = search (tried-Returns, pure-Returns) depth 10

  store_key-Returns :
      (key : Bytes) → Returns (λ p. of_unsealing (p.0) ≡ true) (store_key kernel tss.sizes key)
  unfolding store_key
  store_key-Returns key = search (answered-Returns, tried-Returns, pure-Returns) depth 10

  with_key-Returns :
      (key : Bytes)
      → Returns
          (λ s. of_unsealing s ≡ true)
          (store_key kernel tss.sizes key >>= λ stored.
            give_back kernel tss.sizes (stored.1) >> pure (stored.0))
  with_key-Returns key =
      >>=-Returns-when _ (λ p. of_unsealing (p.0) ≡ true) (store_key kernel tss.sizes key) _
        (store_key-Returns key) λ stored h. search (>>=-Returns, pure-Returns) depth 5

  esys_unseal-Returns :
      (blob session : Handle)
      → Returns
          (λ s. of_unsealing s ≡ true)
          (securememory_esys_unseal kernel tss.sizes blob session)
  unfolding securememory_esys_unseal
  esys_unseal-Returns blob session =
      search (answered-Returns, pure-Returns, with_key-Returns, refused) depth 10

  unseal_in_session-Returns :
      (pcr_seal : List ℕ) (blob sess : Handle)
      → Returns (λ s. of_unsealing s ≡ true) (unseal_in_session kernel tss pcr_seal blob sess)
  unfolding unseal_in_session
  unseal_in_session-Returns pcr_seal blob sess =
      search (answered-Returns, >>=-Returns, pure-Returns, esys_unseal-Returns) depth 10

  tpm_unseal-Returns :
      (pcr_seal : List ℕ) (primary : Handle) (blob : Bytes × Bytes)
      → Returns (λ s. of_unsealing s ≡ true) (tpm_unseal kernel tss pcr_seal primary blob)
  unfolding tpm_unseal unseal_loaded
  tpm_unseal-Returns pcr_seal primary (out_public, out_private) =
      search
        (answered-Returns, >>=-Returns, pure-Returns, finally-Returns, unseal_in_session-Returns)
        depth 10

  pub tpm_unseal_blob-Returns :
      (pcr_seal : List ℕ)
      → Returns (λ s. of_unsealing s ≡ true) (tpm_unseal_blob kernel tss pcr_seal)
  unfolding tpm_unseal_blob
  tpm_unseal_blob-Returns pcr_seal =
      search (tried-Returns, pure-Returns, tpm_unseal-Returns) depth 10

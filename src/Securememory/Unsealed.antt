-- ===== src/Securememory/Unsealed.antt =====
-- When cominitSecurememoryEsysUnseal reports an unsealed key, and when a failure of the policy.
use cominit.Base.{ℕ, ◌==◌, if◌then◌else◌, Bytes, ◌∷◌, ◌≡◌, take}
use cominit.Base.Run.{Run, done, ◌>>=◌, ◌>>◌, pure}
use cominit.Cryptsetup.{secure_storage_name}
use cominit.Machine.{
  Machine, Kernel, Handle, Answer, ok, err, esys_unseal, mlock, add_key, munlock, free_secret,
}
use cominit.Machine.Returns.{Returns}
use cominit.Securememory.{
  Sizes, TpmState, tpm_failure, tpm_policy_failure, policy_failure_rc, zero_out, give_back,
  store_key,
}

-- The key that the TPM has unsealed was locked in memory and given to the keyring, before its buffer
-- was zeroed and given back.
pub record Unsealed (kernel : Kernel) (sizes : Sizes) (blob session : Handle) (m t : Machine)
    : Type 0 where
  pub size : ℕ
  pub key : Bytes
  pub locked : ℕ
  pub locked_bytes : Bytes
  pub id : ℕ
  pub id_bytes : Bytes
  pub asked : kernel m.trace (esys_unseal blob session) ≡ ok size key
  pub calls :
      (unlocked freed : Answer) × (t.trace
        ≡ (free_secret (zero_out (take size key)), freed)
          ∷ (munlock (zero_out (take size key)), unlocked)
          ∷ (add_key secure_storage_name (take size key), ok id id_bytes)
          ∷ (mlock sizes.sensitive_data, ok locked locked_bytes)
          ∷ (esys_unseal blob session, ok size key)
          ∷ m.trace)

module _ (kernel : Kernel) (sizes : Sizes) where
  module _ (blob session : Handle) (m t : Machine) where
    abbrev AskedWith : Answer → TpmState → Type 0
    AskedWith a s =
        (elim a as (λ _. Run Machine TpmState) [
          | err rc ↦ pure (if rc == policy_failure_rc then tpm_policy_failure else tpm_failure)
          | ok size key ↦
              (store_key kernel sizes (take size key) >>= λ stored.
              give_back kernel sizes (stored.1) >> pure (stored.0))
        ])
          (record m { trace = (esys_unseal blob session, a) ∷ m.trace })
        ≡ done s t

-- ===== src/Securememory/Stored.antt =====
-- What store_key has done, and the two calls that give a buffer back.
use cominit.Base.{ℕ, if◌then◌else◌, is_some, Bytes, ◌∷◌, ◌≡◌, sym, ap, ◌∙◌}
use cominit.Base.Run.{Run, done, ◌>>=◌, ◌>>◌, pure, or_fail, after, as_option, attempted, state}
use cominit.Cryptsetup.{secure_storage_name}
use cominit.Keyring.{keyring_add_user_key}
use cominit.Machine.{Machine, Kernel, Answer, ok, err, mlock, add_key, munlock, free_secret, value}
use cominit.Securememory.{Sizes, TpmState, tpm_failure, unsealed, zero_out, give_back, store_key}

-- The key was locked in memory and given to the keyring, and its buffer holds zeros.
pub record Stored (kernel : Kernel) (sizes : Sizes) (key : Bytes) (m t : Machine) (buf : Bytes)
    : Type 0 where
  pub locked : ℕ
  pub locked_bytes : Bytes
  pub id : ℕ
  pub id_bytes : Bytes
  pub erased : buf ≡ zero_out key
  pub calls :
      t.trace
      ≡ (add_key secure_storage_name key, ok id id_bytes)
        ∷ (mlock sizes.sensitive_data, ok locked locked_bytes)
        ∷ m.trace

module _ (kernel : Kernel) (sizes : Sizes) where
  pub store_key-Stored :
      (key : Bytes) (m t : Machine) {p : TpmState × Bytes}
      → store_key kernel sizes key m ≡ done p t
      → p.0 ≡ unsealed
      → Stored kernel sizes key m t (p.1)
  unfolding store_key keyring_add_user_key
  store_key-Stored key m t {p} h e = locked_by (kernel m.trace (mlock sizes.sensitive_data)) h
    where
      ready : Answer → Machine
      ready a = record m { trace = (mlock sizes.sensitive_data, a) ∷ m.trace }

      added : Answer → Answer → Machine
      added a b = record m {
        trace = (add_key secure_storage_name key, b) ∷ (mlock sizes.sensitive_data, a) ∷ m.trace;
      }

      added_by :
          (n : ℕ) (bytes : Bytes) (b : Answer)
          → after
              (as_option (or_fail {S = Machine} (value b) (added (ok n bytes) b)))
              (λ o. pure (if is_some o then unsealed else tpm_failure, zero_out key))
            ≡ done p t
          → Stored kernel sizes key m t (p.1)
      added_by n bytes (ok id id_bytes) k =
          let ended : added (ok n bytes) (ok id id_bytes) ≡ t = cc in
          let result : (unsealed, zero_out key) ≡ p = cc in
          record {
            locked = n;
            locked_bytes = bytes;
            id = id;
            id_bytes = id_bytes;
            erased = ap (λ q. q.1) (sym result);
            calls = ap (λ u. u.trace) (sym ended);
          }
      added_by n bytes (err c) k =
          let result : (tpm_failure, zero_out key) ≡ p = cc in
          let wrong : tpm_failure ≡ unsealed = ap (λ q. q.0) result ∙ e in cc

      locked_by :
          (a : Answer)
          → (elim a as (λ _. Run Machine (TpmState × Bytes)) [
            | err e ↦ pure (tpm_failure, key)
            | ok n bytes ↦
                (attempted (keyring_add_user_key kernel secure_storage_name key) >>= λ added.
                pure (if is_some added then unsealed else tpm_failure, zero_out key))
          ])
              (ready a)
            ≡ done p t
          → Stored kernel sizes key m t (p.1)
      locked_by (err n) k =
          let result : (tpm_failure, key) ≡ p = cc in
          let wrong : tpm_failure ≡ unsealed = ap (λ q. q.0) result ∙ e in cc
      locked_by (ok n bytes) k =
          added_by n bytes
            (kernel ((mlock sizes.sensitive_data, ok n bytes) ∷ m.trace)
              (add_key secure_storage_name key))
            k

  pub given_back :
      (state s : TpmState) (buf : Bytes) (u t : Machine)
      → (give_back kernel sizes buf >> pure state) u ≡ done s t
      → (state ≡ s)
        × (unlocked freed : Answer) × (t.trace
            ≡ (free_secret buf, freed) ∷ (munlock buf, unlocked) ∷ u.trace)
  unfolding give_back
  given_back state s buf u t h =
      let unlocked = kernel u.trace (munlock buf) in
      let freed = kernel ((munlock buf, unlocked) ∷ u.trace) (free_secret buf) in
      let last = record u {
        trace = (free_secret buf, freed) ∷ (munlock buf, unlocked) ∷ u.trace;
      } in
      let same : state ≡ s = cc in
      let ended : last ≡ t = cc in (same, unlocked, freed, ap (λ v. v.trace) (sym ended))

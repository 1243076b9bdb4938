-- ===== src/Securememory.antt =====
-- src/securememory.c: buffers for keys. `munlock` and `free_secret` are told what the buffer holds
-- when it is given back, which is what stays in memory. A call that fails has written nothing,
-- but for the generator of the passphrase: what it has left then is a parameter, as are the sizes of the
-- structures of the TPM stack.
pub mod Held
pub mod Halts
pub mod Erasure
pub mod Stored
pub mod Unsealed
pub mod Quiet
use cominit.Base.{
  ℕ, zero, suc, ◌+◌, ◌-◌, Bool, true, false, not, ◌&&◌, ◌==◌, ltb, if◌then◌else◌, Option, none,
  some, is_some, Bytes, [], ◌∷◌, ◌++◌, take, drop, length, replicate,
}
use cominit.Base.Run.{
  Run, Outcome, done, failed, ◌>>=◌, ◌>>◌, pure, fail, guard, attempted, finally,
}
use cominit.Crypto.Passphrase.{crypto_create_passphrase}
use cominit.Cryptsetup.{cryptsetup_create_luks_volume, passphrase_size, secure_storage_name}
use cominit.Keyring.{keyring_add_user_key, keyring_get_key}
use cominit.Libc.Strtoul.{ulong_mod}
use cominit.Machine.{
  Machine, Kernel, Handle, Answer, ok, err, calloc, mlock, munlock, free_secret, esys_unseal,
  esys_create, extern, call,
}

-- cominitTpmState_t
pub data TpmState : Type 0 where
  tpm_failure tpm_policy_failure unsealed sealed : TpmState

-- POLICY_FAILURE_RC
abbrev pub policy_failure_rc : ℕ
policy_failure_rc = 0x99D

-- cominitSecurememoryZeroOut
unfoldable pub zero_out : Bytes → Bytes
zero_out [] = []
zero_out (c ∷ buf) = 0 ∷ zero_out buf

unfoldable pub all_zeros : Bytes → Bool
all_zeros [] = true
all_zeros (c ∷ buf) = c == 0 && all_zeros buf

-- cominitSecurememoryVerifyZero: its result is only printed. An empty buffer is refused.
unfoldable pub verify_zero : Bytes → Bool
unfolding all_zeros
verify_zero [] = false
verify_zero (c ∷ buf) = all_zeros (c ∷ buf)

-- The buffer after a read of bytes into its start.
unfoldable pub filled : Bytes → Bytes → Bytes
filled buf bytes = take (length buf) (bytes ++ drop (length bytes) buf)

-- What the functions ask of the TPM stack and the build.
pub record Sizes : Type 0 where
  pub sensitive_data : ℕ
  pub sensitive_create : ℕ
  pub cryptsetup_dir : Bytes
  -- What a buffer of zeros holds when the generator has failed to fill it.
  pub half_drawn : Bytes

module _ (kernel : Kernel) (sizes : Sizes) where
  unfoldable pub give_back : Bytes → Run Machine Answer
  give_back key_buffer =
      extern kernel (munlock key_buffer) >> extern kernel (free_secret key_buffer)

  -- What is done with the unsealed key: the state, and what the buffer holds then.
  unfoldable pub store_key : Bytes → Run Machine (TpmState × Bytes)
  unfolding zero_out
  store_key key = do
    locked ← extern kernel (mlock sizes.sensitive_data)
    elim locked [
      | err e ↦ pure (tpm_failure, key)
      | ok n bytes ↦ do
        added ← attempted (keyring_add_user_key kernel secure_storage_name key)
        pure (if is_some added then unsealed else tpm_failure, zero_out key)
    ]

  unfoldable pub securememory_esys_unseal : Handle → Handle → Run Machine TpmState
  unfolding store_key give_back
  securememory_esys_unseal blob_handle session =
      extern kernel (esys_unseal blob_handle session) >>= λ a. elim a [
        | err rc ↦ pure (if rc == policy_failure_rc then tpm_policy_failure else tpm_failure)
        | ok size key ↦ do stored ← store_key (take size key); give_back (stored.1); pure (stored.0)
      ]

  -- `(size_t)-1` where the key could not be read.
  unfoldable pub key_size : Option (ℕ × Bytes) → ℕ
  key_size none = ulong_mod - 1
  key_size (some (len, key)) = len

  unfoldable pub key_read : Option (ℕ × Bytes) → Bytes → Bytes
  unfolding filled
  key_read none buf = buf
  key_read (some (len, key)) buf = filled buf key

  -- The result, and what the buffer holds then; `keySize <= 0` is a test of an unsigned number.
  unfoldable pub format_with_key : Bytes → Option (ℕ × Bytes) → Bytes → Run Machine (Bool × Bytes)
  unfolding key_size key_read zero_out
  format_with_key dev_crypt got buf =
      if key_size got == 0 then pure (false, key_read got buf) else do
        made ← attempted (
            cryptsetup_create_luks_volume kernel sizes.cryptsetup_dir dev_crypt (key_read got buf)
              (key_size got))
        pure (is_some made, zero_out (key_read got buf))

  unfoldable pub format_locked : Bytes → Bytes → Run Machine (Bool × Bytes)
  unfolding format_with_key
  format_locked dev_crypt buf = do
    locked ← extern kernel (mlock passphrase_size)
    elim locked [
      | err e ↦ pure (false, buf)
      | ok n bytes ↦ do
        got ← attempted (keyring_get_key kernel passphrase_size secure_storage_name)
        format_with_key dev_crypt got buf
    ]

  unfoldable pub securememory_create_luks_volume : Bytes → Run Machine (Unit {0})
  unfolding format_locked give_back
  securememory_create_luks_volume dev_crypt = do
    call kernel (calloc passphrase_size)
    formatted ← format_locked dev_crypt (replicate passphrase_size 0)
    give_back (formatted.1)
    guard (formatted.0)

  -- The public and the private part that Esys_Create made, if it did.
  unfoldable pub blob_of : Answer → Option (Bytes × Bytes)
  blob_of (ok n bytes) = some (take n bytes, drop n bytes)
  blob_of (err rc) = none

  -- The result, the parts of the blob, and what the buffer holds then.
  unfoldable pub seal_passphrase :
      Handle → Bytes → Run Machine (Bool × Option (Bytes × Bytes) × Bytes)
  unfolding blob_of zero_out
  seal_passphrase primary_handle policy_digest = do
    locked ← extern kernel (mlock sizes.sensitive_create)
    elim locked [
      | err e ↦ pure (false, none, replicate passphrase_size 0)
      | ok n bytes ↦ do
        made ← attempted (crypto_create_passphrase kernel passphrase_size)
        elim made [
          | none ↦ pure (false, none, sizes.half_drawn)
          | some passphrase ↦ do
            a ← extern kernel (esys_create primary_handle policy_digest passphrase)
            pure (true, blob_of a, zero_out passphrase)
        ]
    ]

  -- A failure is that of the passphrase or of its memory: that of Esys_Create is not returned.
  unfoldable pub securememory_esys_create : Handle → Bytes → Run Machine (Option (Bytes × Bytes))
  unfolding seal_passphrase give_back
  securememory_esys_create primary_handle policy_digest = do
    call kernel (calloc sizes.sensitive_create)
    made ← seal_passphrase primary_handle policy_digest
    give_back (made.2)
    guard (made.0)
    pure (made.1)

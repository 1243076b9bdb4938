-- ===== src/Crypto/Passphrase/Quiet.antt =====
-- The digest of the key file, the passphrase and the keyring (src/crypto.c, src/keyring.c) as parts of
-- a run that does no more than a frame allows.
use cominit.Base.{ℕ, Bytes, []}
use cominit.Base.Run.{Outcome, done, failed, hung, fault, state}
use cominit.Machine.{Machine, Kernel}
use cominit.Machine.Held.Neutral.{Simple}
use cominit.Machine.Frame.{Frame, Respects, Quiet, respects}
use cominit.Crypto.Passphrase.{
  digest_of_key, create_sha256_digest_from_keyfile, hash_of_boot_id, crypto_create_unique_string,
  or_else, seed_and_draw, free_drbg, crypto_create_passphrase,
}
use cominit.Keyring.{keyring_get_key, keyring_add_user_key}

module _ (frame : Frame) (quiet : Quiet frame) (kernel : Kernel) where
  pub create_sha256_digest_from_keyfile-Respects :
      (keyfile : Bytes) (len : ℕ)
      → Respects frame (create_sha256_digest_from_keyfile kernel keyfile len)
  unfolding create_sha256_digest_from_keyfile digest_of_key
  create_sha256_digest_from_keyfile-Respects keyfile len = search respects depth 20

  create_unique_string-Respects : Respects frame (crypto_create_unique_string kernel)
  unfolding crypto_create_unique_string hash_of_boot_id
  create_unique_string-Respects = search respects depth 20

  or_else-rel :
      {A : Type 0} (a : A) (m : Machine) (o : Outcome Machine A)
      → frame.rel m (state o)
      → frame.rel m (state (or_else a o))
  or_else-rel a m (done b t) h = h
  or_else-rel a m (failed t) h = h
  or_else-rel a m (hung t) h = h
  or_else-rel a m (fault t) h = h

  unique_string_or_none-Respects :
      Respects frame (λ u. or_else [] (crypto_create_unique_string kernel u))
  unique_string_or_none-Respects = record {
    at = λ m.
        or_else-rel _ m (crypto_create_unique_string kernel m) (create_unique_string-Respects.at m);
  }

  seed_and_draw-Respects : (size : ℕ) → Respects frame (seed_and_draw kernel size)
  unfolding seed_and_draw
  seed_and_draw-Respects size = search (respects, unique_string_or_none-Respects) depth 20

  pub crypto_create_passphrase-Respects :
      (size : ℕ) → Respects frame (crypto_create_passphrase kernel size)
  unfolding crypto_create_passphrase free_drbg
  crypto_create_passphrase-Respects size = search (respects, seed_and_draw-Respects) depth 20

module _ (frame : Frame) (simple : Simple frame) (kernel : Kernel) where
  pub keyring_get_key-Respects :
      (size : ℕ) (desc : Bytes) → Respects frame (keyring_get_key kernel size desc)
  unfolding keyring_get_key
  keyring_get_key-Respects size desc = search respects depth 20

  pub keyring_add_user_key-Respects :
      (desc key : Bytes) → Respects frame (keyring_add_user_key kernel desc key)
  unfolding keyring_add_user_key
  keyring_add_user_key-Respects desc key = search respects depth 20

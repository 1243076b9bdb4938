-- ===== src/Crypto/Passphrase/Held.antt =====
-- The digest of the key and the passphrase give back what they get: the stream of the boot id and the
-- contexts of the crypto library.
use cominit.Base.{ℕ, List, [], ◌∷◌, Bytes}
use cominit.Base.Run.{Outcome, done, failed, hung, fault}
use cominit.Crypto.Passphrase.{
  digest_of_key, create_sha256_digest_from_keyfile, hash_of_boot_id, crypto_create_unique_string,
  or_else, seed_and_draw, free_drbg, crypto_create_passphrase,
}
use cominit.Machine.{Machine, Kernel}
use cominit.Machine.Held.{Resource, drbg, entropy}
use cominit.Machine.Held.Balance.{Leaves, Releases, Gives}
use cominit.Machine.Held.Bracket.{releases, Gives->>=}

module _ (kernel : Kernel) where
  digest_of_key-Releases : (keyfile : Bytes) → Releases [] (digest_of_key kernel keyfile)
  unfolding digest_of_key
  digest_of_key-Releases keyfile = search releases depth 20

  pub create_sha256_digest_from_keyfile-Releases :
      (keyfile : Bytes) (len : ℕ)
      → Releases [] (create_sha256_digest_from_keyfile kernel keyfile len)
  unfolding create_sha256_digest_from_keyfile
  create_sha256_digest_from_keyfile-Releases keyfile len =
      search (releases, digest_of_key-Releases) depth 20

  create_unique_string-Releases : Releases [] (crypto_create_unique_string kernel)
  unfolding crypto_create_unique_string hash_of_boot_id
  create_unique_string-Releases = search releases depth 20

  or_else-Leaves :
      {A : Type 0} (a : A) (h : List Resource) (o : Outcome Machine A)
      → Leaves h o
      → Leaves h (or_else a o)
  or_else-Leaves a h (done b t) l = l
  or_else-Leaves a h (failed t) l = l
  or_else-Leaves a h (hung t) l = l
  or_else-Leaves a h (fault t) l = l

  unique_string_or_none-Releases :
      Releases [] (λ u. or_else [] (crypto_create_unique_string kernel u))
  unique_string_or_none-Releases = record {
    at = λ m h e. or_else-Leaves _ h _ (create_unique_string-Releases.at m h e);
  }

  seed_and_draw-Releases : (size : ℕ) → Releases [] (seed_and_draw kernel size)
  unfolding seed_and_draw
  seed_and_draw-Releases size = search (releases, unique_string_or_none-Releases) depth 20

  free_drbg-Gives : Gives (drbg ∷ entropy ∷ []) (free_drbg kernel)
  unfolding free_drbg
  free_drbg-Gives = search releases depth 20

  pub crypto_create_passphrase-Releases :
      (size : ℕ) → Releases [] (crypto_create_passphrase kernel size)
  unfolding crypto_create_passphrase
  crypto_create_passphrase-Releases size =
      search (releases, seed_and_draw-Releases, free_drbg-Gives, Gives->>=) depth 20

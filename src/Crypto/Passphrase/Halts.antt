-- ===== src/Crypto/Passphrase/Halts.antt =====
-- The digest of the key and the passphrase come to their end.
use cominit.Base.{ℕ, [], Bytes}
use cominit.Base.Run.{Outcome, done, failed, hung, fault}
use cominit.Crypto.Passphrase.{
  or_else, digest_of_key, create_sha256_digest_from_keyfile, hash_of_boot_id,
  crypto_create_unique_string, seed_and_draw, free_drbg, crypto_create_passphrase,
}
use cominit.Machine.{Machine, Kernel}
use cominit.Machine.Halts.{Comes, Halts, halts, >>=-Halts}

or_else-Comes : {A : Type 0} (b : A) (o : Outcome Machine A) → Comes o → Comes (or_else b o)
or_else-Comes b (done a m) c = tt
or_else-Comes b (failed m) c = tt
or_else-Comes b (hung m) c = c
or_else-Comes b (fault m) c = tt

module _ (kernel : Kernel) where
  digest_of_key-Halts : (keyfile : Bytes) → Halts (digest_of_key kernel keyfile)
  unfolding digest_of_key
  digest_of_key-Halts keyfile = search halts depth 20

  pub create_sha256_digest_from_keyfile-Halts :
      (keyfile : Bytes) (size : ℕ) → Halts (create_sha256_digest_from_keyfile kernel keyfile size)
  unfolding create_sha256_digest_from_keyfile
  create_sha256_digest_from_keyfile-Halts keyfile size =
      search (halts, digest_of_key-Halts) depth 30 fits 4000

  hash_of_boot_id-Halts : (file : ℕ) → Halts (hash_of_boot_id kernel file)
  unfolding hash_of_boot_id
  hash_of_boot_id-Halts file = search halts depth 20

  crypto_create_unique_string-Halts : Halts (crypto_create_unique_string kernel)
  unfolding crypto_create_unique_string
  crypto_create_unique_string-Halts = search (halts, hash_of_boot_id-Halts) depth 30 fits 4000

  seed_and_draw-Halts : (size : ℕ) → Halts (seed_and_draw kernel size)
  unfolding seed_and_draw
  seed_and_draw-Halts size = record {
    at =
        (>>=-Halts
          (record {
            at = λ m.
                or_else-Comes [] (crypto_create_unique_string kernel m)
                  (crypto_create_unique_string-Halts.at m);
          })
          λ unique_string. search halts depth 20).at;
  }

  free_drbg-Halts : Halts (free_drbg kernel)
  unfolding free_drbg
  free_drbg-Halts = search halts

  pub crypto_create_passphrase-Halts : (size : ℕ) → Halts (crypto_create_passphrase kernel size)
  unfolding crypto_create_passphrase
  crypto_create_passphrase-Halts size =
      search (halts, seed_and_draw-Halts, free_drbg-Halts) depth 30 fits 4000

-- ===== src/Crypto/Passphrase.antt =====
-- The digest of the public key and the passphrase of the secure storage (src/crypto.c).
pub mod Held
pub mod Halts
pub mod Seeded
pub mod Quiet
use cominit.Base.{
  ℕ, zero, suc, ◌-◌, Bool, true, false, ◌||◌, [], ◌∷◌, ◌==◌, ltb, leb, if◌then◌else◌, Bytes, codes,
  take,
}
use cominit.Base.Run.{
  Run, Outcome, done, failed, hung, fault, ◌>>=◌, ◌>>◌, guard, on_fail, state, pure,
}
use cominit.Machine.{
  Machine, Kernel, Answer, open_file, fgets, sha256, pk_init, pk_parse, pk_write_pubkey_der,
  pk_free, entropy_init, entropy_free, ctr_drbg_init, ctr_drbg_seed, ctr_drbg_random, ctr_drbg_free,
  extern, call, call_out, close_fd,
}

abbrev pub der_buffer_size : ℕ
der_buffer_size = 1600

abbrev pub sha256_len : ℕ
sha256_len = 32

-- `strcspn(buffer, "\r\n")` bytes
unfoldable pub first_line : Bytes → Bytes
first_line [] = []
first_line (c ∷ s) = if c == 0 || c == b'\n' || c == 13 then [] else c ∷ first_line s

-- A result, or another one after a failure.
abbrev pub or_else : {A : Type 0} → A → Outcome Machine A → Outcome Machine A
or_else b (done a m) = done a m
or_else b (failed m) = done b m
or_else b (hung m) = hung m
or_else b (fault m) = fault m

module _ (kernel : Kernel) where
  unfoldable pub digest_of_key : Bytes → Run Machine Bytes
  digest_of_key keyfile = do
    call kernel (pk_parse keyfile)
    (der_len, pub_key_der) ← call_out kernel (pk_write_pubkey_der der_buffer_size)
    guard (ltb 0 der_len)
    (_, digest) ← call_out kernel (sha256 pub_key_der)
    pure digest

  -- cominitCreateSHA256DigestfromKeyfile, for a digest of some size
  unfoldable pub create_sha256_digest_from_keyfile : Bytes → ℕ → Run Machine Bytes
  unfolding digest_of_key
  create_sha256_digest_from_keyfile keyfile digest_len = do
    guard (leb sha256_len digest_len)
    extern kernel pk_init
    digest ← on_fail (extern kernel pk_free) (digest_of_key keyfile)
    extern kernel pk_free
    pure digest

  unfoldable pub hash_of_boot_id : ℕ → Run Machine Bytes
  unfolding first_line
  hash_of_boot_id file = do
    (_, buffer) ← call_out kernel (fgets file 256)
    (_, unique_string) ← call_out kernel (sha256 (first_line buffer))
    pure unique_string

  -- cominitCryptoCreateUniqueString; `fclose` is a close here.
  unfoldable pub crypto_create_unique_string : Run Machine Bytes
  unfolding hash_of_boot_id
  crypto_create_unique_string = do
    file ← call kernel (open_file (codes "/proc/sys/kernel/random/boot_id"))
    unique_string ← on_fail (close_fd kernel file) (hash_of_boot_id file)
    close_fd kernel file
    pure unique_string

  unfoldable pub seed_and_draw : ℕ → Run Machine Bytes
  unfolding crypto_create_unique_string
  seed_and_draw passphrase_size m =
      ((λ u. or_else [] (crypto_create_unique_string u)) >>= λ unique_string.
      call kernel (ctr_drbg_seed unique_string) >>= λ _.
      call_out kernel (ctr_drbg_random passphrase_size) >>= λ p. pure (p.1))
        m

  unfoldable pub free_drbg : Run Machine Answer
  free_drbg = do extern kernel ctr_drbg_free; extern kernel entropy_free

  -- cominitCryptoCreatePassphrase
  unfoldable pub crypto_create_passphrase : ℕ → Run Machine Bytes
  unfolding seed_and_draw free_drbg
  crypto_create_passphrase passphrase_size = do
    guard (ltb 0 passphrase_size)
    extern kernel entropy_init
    extern kernel ctr_drbg_init
    passphrase ← on_fail free_drbg (seed_and_draw passphrase_size)
    free_drbg
    pure passphrase

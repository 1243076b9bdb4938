-- ===== src/Crypto/Passphrase/Seeded.antt =====
-- On the calls of cominitCryptoCreatePassphrase.
use cominit.Base.{ℕ, ◌<◌, ◌∷◌, [], ◌≡◌, arith, Bytes, ltb, ltb→lt}
use cominit.Base.Run.{done, on_fail, >>=-eq-done, guard-eq-done, recovered-eq-done}
use cominit.Machine.{
  Machine, Kernel, Answer, ok, entropy_init, entropy_free, ctr_drbg_init, ctr_drbg_seed,
  ctr_drbg_random, ctr_drbg_free, call-eq-done, call_out-eq-done,
}
use cominit.Crypto.Passphrase.{
  or_else, crypto_create_unique_string, seed_and_draw, free_drbg, crypto_create_passphrase,
}

-- A passphrase of a size: what was asked after the unique string was made, or could not be.
pub record Drawn (kernel : Kernel) (size : ℕ) (passphrase : Bytes) (m t : Machine) : Type 0 where
  pub unique_string : Bytes
  pub before : Machine
  pub n_seed : ℕ
  pub b_seed : Bytes
  pub n_random : ℕ
  pub drbg_freed : Answer
  pub entropy_freed : Answer
  pub some_size : 0 < size
  pub unique :
      or_else [] (
        crypto_create_unique_string kernel (record m {
          trace =
              (
                ctr_drbg_init,
                kernel ((entropy_init, kernel m.trace entropy_init) ∷ m.trace) ctr_drbg_init,
              )
              ∷ (entropy_init, kernel m.trace entropy_init)
              ∷ m.trace;
        }))
      ≡ done unique_string before
  pub events :
      t.trace
      ≡ (entropy_free, entropy_freed)
        ∷ (ctr_drbg_free, drbg_freed)
        ∷ (ctr_drbg_random size, ok n_random passphrase)
        ∷ (ctr_drbg_seed unique_string, ok n_seed b_seed)
        ∷ before.trace

-- When cominitCryptoCreatePassphrase succeeds, the passphrase is what the generator wrote for a
-- request of exactly the positive size, right after it was seeded with success, with the unique
-- string or, if that could not be made, with none; the last calls free both contexts.
pub crypto_create_passphrase-Drawn :
    (kernel : Kernel) (size : ℕ) (m t : Machine) {passphrase : Bytes}
    → crypto_create_passphrase kernel size m ≡ done passphrase t
    → Drawn kernel size passphrase m t
unfolding crypto_create_passphrase seed_and_draw free_drbg
crypto_create_passphrase-Drawn kernel size m t h =
    let (some_size, h1) = guard-eq-done (ltb 0 size) _ m h in
    let (p, u, drawn, h2) =
      >>=-eq-done (on_fail (free_drbg kernel) (seed_and_draw kernel size)) _ _ h1 in
    let whole = recovered-eq-done (free_drbg kernel) _ drawn in
    let (unique_string, before, unique, h3) =
      >>=-eq-done (λ v. or_else [] (crypto_create_unique_string kernel v)) _ _ whole in
    let (n1, b1, _, h4) = call-eq-done kernel (ctr_drbg_seed unique_string) _ before h3 in
    let (n2, b2, _, h5) = call_out-eq-done kernel (ctr_drbg_random size) _ _ h4 in
    record {
      unique_string = unique_string;
      before = before;
      n_seed = n1;
      b_seed = b1;
      n_random = n2;
      drbg_freed = kernel u.trace ctr_drbg_free;
      entropy_freed = kernel ((ctr_drbg_free, kernel u.trace ctr_drbg_free) ∷ u.trace) entropy_free;
      some_size = ltb→lt 0 size some_size;
      unique = unique;
      events = ground arith;
    }

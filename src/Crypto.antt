-- ===== src/Crypto.antt =====
-- src/crypto.c: the RSASSA-PSS check of the metadata, and the passphrase. MbedTLS answers through
-- `Call`.
pub mod Verified
pub mod Passphrase
use cominit.Base.{ℕ, Bool, not, ltb, Bytes}
use cominit.Base.Run.{Run, ◌>>=◌, ◌>>◌, pure, guard, on_fail}
use cominit.Machine.{
  Machine, Kernel, Answer, pk_init, pk_parse, pk_get_type, pk_can_do_rsa, rsa_set_padding, sha256,
  pss_verify, pk_free, extern, call, call_out,
}

module _ (kernel : Kernel) where
  -- The checks between `mbedtls_pk_init` and `mbedtls_pk_free`. MBEDTLS_PK_NONE is 0.
  unfoldable pub verify_with_key : Bytes → Bytes → Bytes → Run Machine ℕ
  verify_with_key bytes signature keyfile = do
    call kernel (pk_parse keyfile)
    key_type ← call kernel pk_get_type
    guard (ltb 0 key_type)
    can_do ← call kernel pk_can_do_rsa
    guard (ltb 0 can_do)
    call kernel rsa_set_padding
    (_, data_hash) ← call_out kernel (sha256 bytes)
    call kernel (pss_verify data_hash signature)

  -- cominitCryptoVerifySignature
  unfoldable pub crypto_verify_signature : Bytes → Bytes → Bytes → Run Machine Answer
  unfolding verify_with_key
  crypto_verify_signature bytes signature keyfile = do
    extern kernel pk_init
    on_fail (extern kernel pk_free) (verify_with_key bytes signature keyfile)
    extern kernel pk_free

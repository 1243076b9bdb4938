-- ===== src/Crypto/Verified.antt =====
-- On the calls of cominitCryptoVerifySignature.
use cominit.Base.{ℕ, ◌<◌, ◌∷◌, ◌≡◌, arith, Bytes, ltb, ltb→lt}
use cominit.Base.Run.{done, >>=-eq-done, guard-eq-done, recovered-eq-done, on_fail}
use cominit.Crypto.{verify_with_key, crypto_verify_signature}
use cominit.Machine.{
  Machine, Kernel, Answer, Trace, ok, pk_init, pk_parse, pk_get_type, pk_can_do_rsa,
  rsa_set_padding, sha256, pss_verify, pk_free, extern, call-eq-done, call_out-eq-done,
  call_last-eq-done,
}

-- The check is in the trace, between older and newer events: the hash is of the bytes, and the
-- signature was found to fit the hash.
pub record Checked (bytes signature keyfile : Bytes) (before after : Trace) : Type 0 where
  pub hash : Bytes
  pub freed : Answer
  pub init : Answer
  pub key_type : ℕ
  pub can_do : ℕ
  pub n_parse : ℕ
  pub n_padding : ℕ
  pub n_hash : ℕ
  pub n_verify : ℕ
  pub b_parse : Bytes
  pub b_type : Bytes
  pub b_can : Bytes
  pub b_padding : Bytes
  pub b_verify : Bytes
  pub is_key : 0 < key_type
  pub is_rsa : 0 < can_do
  pub events :
      after
      ≡ (pk_free, freed)
        ∷ (pss_verify hash signature, ok n_verify b_verify)
        ∷ (sha256 bytes, ok n_hash hash)
        ∷ (rsa_set_padding, ok n_padding b_padding)
        ∷ (pk_can_do_rsa, ok can_do b_can)
        ∷ (pk_get_type, ok key_type b_type)
        ∷ (pk_parse keyfile, ok n_parse b_parse)
        ∷ (pk_init, init)
        ∷ before

-- A successful check asked for the hash of the given bytes and for the check of the signature
-- against that hash with the RSA key of the file, each answered with success, and changed nothing
-- but the trace.
pub crypto_verify_signature-Checked :
    (kernel : Kernel) (bytes signature keyfile : Bytes) (m m' : Machine) {a : Answer}
    → crypto_verify_signature kernel bytes signature keyfile m ≡ done a m'
    → Checked bytes signature keyfile m.trace m'.trace × (m'.meta ≡ m.meta)
unfolding crypto_verify_signature
crypto_verify_signature-Checked kernel bytes signature keyfile m m' h =
    let start = record m { trace = (pk_init, kernel m.trace pk_init) ∷ m.trace } in
    let (n, u, checked, freed) =
      >>=-eq-done (on_fail (extern kernel pk_free) (verify_with_key kernel bytes signature keyfile))
        (λ _. extern kernel pk_free) start h in
    let whole =
      recovered-eq-done (extern kernel pk_free)
        (verify_with_key kernel bytes signature keyfile start) checked in
    let (n1, b1, _, h1) = call-eq-done kernel (pk_parse keyfile) _ start whole in
    let (n2, b2, _, h2) = call-eq-done kernel pk_get_type _ _ h1 in
    let (is_key, h3) = guard-eq-done (ltb 0 n2) _ _ h2 in
    let (n4, b4, _, h4) = call-eq-done kernel pk_can_do_rsa _ _ h3 in
    let (is_rsa, h5) = guard-eq-done (ltb 0 n4) _ _ h4 in
    let (n6, b6, _, h6) = call-eq-done kernel rsa_set_padding _ _ h5 in
    let (n7, b7, _, h7) = call_out-eq-done kernel (sha256 bytes) _ _ h6 in
    let (b8, _, h8) = call_last-eq-done kernel (pss_verify b7 signature) _ h7 in
    (
      record {
        hash = b7;
        freed = kernel u.trace pk_free;
        init = kernel m.trace pk_init;
        key_type = n2;
        can_do = n4;
        n_parse = n1;
        n_padding = n6;
        n_hash = n7;
        n_verify = n;
        b_parse = b1;
        b_type = b2;
        b_can = b4;
        b_padding = b6;
        b_verify = b8;
        is_key = ltb→lt 0 n2 is_key;
        is_rsa = ltb→lt 0 n4 is_rsa;
        events = ground arith;
      },
      ground arith,
    )

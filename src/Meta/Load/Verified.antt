-- ===== src/Meta/Load/Verified.antt =====
-- On the check before the parsing in cominitLoadVerifyMetadata.
use cominit.Base.{
  ℕ, suc, ◌+◌, ◌-◌, ◌<◌, ◌≤◌, ◌^◌, [], ◌∷◌, ◌++◌, ◌≡◌, ◌∙◌, refl, arith, Bytes, length, take, drop,
  sym, take-append-drop, append_assoc, length-drop, ltb, ltb→lt,
}
use cominit.Base.Run.{done, ◌>>=◌, >>=-eq-done, guard-eq-done, recovered-eq-done, on_fail}
use cominit.Crypto.{crypto_verify_signature}
use cominit.Crypto.Verified.{Checked, crypto_verify_signature-Checked}
use cominit.Machine.{Machine, Kernel, open_file, get_size, lseek, call-eq-done, log, close_fd, call}
use cominit.Meta.Load.{
  c_string, zero_buf, metadata_offset, bin_readall, read_region, verify_and_parse,
  load_verify_metadata,
}
use cominit.Meta.Load.Reading.{ReadsFit, length-read_loop}
use cominit.Meta.Parse.{parse_metadata}

length-zero_buf : length zero_buf ≡ 4096
unfolding zero_buf
length-zero_buf = refl

module _ (kernel : Kernel) (fit : ReadsFit kernel) where
  length-bin_readall :
      (rounds fd offset : ℕ) (m : Machine) (out : Bytes) (m' : Machine)
      → bin_readall kernel rounds zero_buf fd offset 4096 m ≡ done out m'
      → length out ≡ 4096
  unfolding bin_readall
  length-bin_readall rounds fd offset m out m' h =
      let (_, h1) = guard-eq-done (ltb offset (2 ^ 63)) _ m h in
      let (_, bytes, _, h2) = call-eq-done kernel (lseek fd offset) _ m h1 in
      length-read_loop kernel rounds fd 4096 zero_buf _ out m' fit (omega arith)
        (omega (arith, length-zero_buf)) h2
      ∙ length-zero_buf

  length-read_region :
      (rounds : ℕ) (m : Machine) (out : Bytes) (m' : Machine)
      → read_region kernel rounds m ≡ done out m'
      → length out ≡ 4096
  unfolding read_region
  length-read_region rounds m out m' h =
      let (fd, bytes, _, h1) = call-eq-done kernel (open_file m.meta.device_path) _ m h in
      let opened = log (open_file m.meta.device_path) fd bytes m in
      let (buf, u, h2, h3) =
        >>=-eq-done
          (on_fail (close_fd kernel fd) (
            call kernel (get_size fd) >>= λ size.
            bin_readall kernel rounds zero_buf fd (metadata_offset size) 4096))
          _ opened h1 in
      let whole = recovered-eq-done (close_fd kernel fd) _ h2 in
      let (size, bytes', _, h4) = call-eq-done kernel (get_size fd) _ opened whole in
      let same : buf ≡ out = cc in
      rw (← same) (length-bin_readall rounds fd (metadata_offset size) _ buf u h4)

c_string-take :
    (buf : Bytes)
    → length (c_string buf) < length buf
    → take (suc (length (c_string buf))) buf ≡ c_string buf ++ 0 ∷ []
unfolding c_string
c_string-take [] h = absurd (omega arith)
c_string-take (c ∷ buf) h = ground (arith, c_string-take buf)

-- How a successful load went: the region was read, the hash that was checked is of the string in it
-- with its NUL, the signature is what follows, for which 512 bytes are there, and it is this string
-- that was parsed, with the structure as it was.
pub record Loaded (kernel : Kernel) (rounds : ℕ) (keyfile : Bytes) (m m' : Machine) : Type 0 where
  pub region : Bytes
  pub signature : Bytes
  pub read_end : Machine
  pub checked_end : Machine
  pub reads : read_region kernel rounds m ≡ done region read_end
  pub splits : region ≡ c_string region ++ 0 ∷ signature
  pub room : 512 ≤ length signature
  pub checked :
      Checked (c_string region ++ 0 ∷ []) signature keyfile read_end.trace checked_end.trace
  pub same_meta : checked_end.meta ≡ read_end.meta
  pub parsed : parse_metadata kernel (c_string region) checked_end ≡ done tt m'

-- If read(2) reports the bytes that it wrote, whatever cominitLoadVerifyMetadata returns with
-- success was parsed from a string whose SHA-256 hash, its NUL included, MbedTLS has found to be
-- signed, with the RSA key of the key file, by the bytes that follow it in the region.
pub load_verify_metadata-Loaded :
    (kernel : Kernel) (rounds : ℕ) (keyfile : Bytes) (m m' : Machine)
    → ReadsFit kernel
    → load_verify_metadata kernel rounds keyfile m ≡ done tt m'
    → Loaded kernel rounds keyfile m m'
unfolding load_verify_metadata verify_and_parse
load_verify_metadata-Loaded kernel rounds keyfile m m' fit h =
    let (region, u, reads, h1) = >>=-eq-done (read_region kernel rounds) _ m h in
    let n = length (c_string region) in
    let (short, h2) = guard-eq-done (ltb n (4096 - 512 - 1)) _ u h1 in
    let (a, v, verified, parsed) =
      >>=-eq-done
        (crypto_verify_signature kernel (take (n + 1) region) (drop (n + 1) region) keyfile) _ u
        h2 in
    let (checked, same) =
      crypto_verify_signature-Checked kernel (take (n + 1) region) (drop (n + 1) region) keyfile u v
        verified in
    let whole = length-read_region kernel fit rounds m region u reads in
    let next : n + 1 ≡ suc n = omega arith in
    let cut : take (n + 1) region ≡ c_string region ++ 0 ∷ [] =
      rw next (c_string-take region (omega (arith, ltb→lt n 3583 short))) in
    record {
      region = region;
      signature = drop (n + 1) region;
      read_end = u;
      checked_end = v;
      reads = reads;
      splits =
          sym (take-append-drop (n + 1) region)
          ∙ rw cut (append_assoc (c_string region) (0 ∷ []) (drop (n + 1) region));
      room = omega (arith, length-drop (n + 1) region, ltb→lt n 3583 short);
      checked = rw (← cut) checked;
      same_meta = same;
      parsed = parsed;
    }

-- ===== src/Meta/Load.antt =====
-- cominitLoadVerifyMetadata and cominitBinReadall.
pub mod Held
pub mod Halts
pub mod Reading
pub mod Quiet
pub mod Errors
pub mod Verified
use cominit.Base.{
  ℕ, zero, suc, ◌+◌, ◌-◌, ◌%◌, ◌^◌, Bool, true, false, ◌∷◌, [], ◌++◌, ◌==◌, ltb, if◌then◌else◌,
  Bytes, length, take, drop, replicate,
}
use cominit.Base.Run.{Run, Outcome, done, hung, ◌>>=◌, ◌>>◌, pure, get, guard, on_fail}
use cominit.Common.{common_get_part_size}
use cominit.Crypto.{crypto_verify_signature}
use cominit.Libc.Strtoul.{ulong_mod}
use cominit.Machine.{
  Machine, Kernel, Answer, open_file, get_size, lseek, read, part_meta_data_size,
  part_meta_sig_length, extern, call, call_out, close_fd,
}
use cominit.Meta.Parse.{parse_metadata}

-- `read` writes at the start of `buf`.
unfoldable pub overwrite : Bytes → Bytes → Bytes
overwrite buf bytes = bytes ++ drop (length bytes) buf

-- The C string at the start of a buffer; its length is `strnlen(buf, sizeof(buf))`.
unfoldable pub c_string : Bytes → Bytes
c_string [] = []
c_string (c ∷ buf) = if c == 0 then [] else c ∷ c_string buf

-- `metabuf[…] = {0}`
unfoldable pub zero_buf : Bytes
zero_buf = replicate part_meta_data_size 0

-- `partSize - COMINIT_PART_META_DATA_SIZE`, in 64 bits
unfoldable pub metadata_offset : ℕ → ℕ
metadata_offset part_size = (part_size + ulong_mod - part_meta_data_size) % ulong_mod

module _ (kernel : Kernel) where
  -- `while (len > 0)`: each round reads to the start of the buffer.
  unfoldable pub read_loop : ℕ → ℕ → Bytes → ℕ → Run Machine Bytes
  unfolding overwrite
  read_loop zero fd buf len m = if ltb 0 len then hung m else done buf m
  read_loop (suc rounds) fd buf len m = elim (ltb 0 len) [
    | false ↦ done buf m
    | true ↦
        (call_out kernel (read fd len) >>= λ p.
        read_loop rounds fd (overwrite buf p.1) ((len + ulong_mod - p.0) % ulong_mod))
          m
  ]

  -- A negative `off_t` has its top bit set.
  unfoldable pub bin_readall : ℕ → Bytes → ℕ → ℕ → ℕ → Run Machine Bytes
  bin_readall rounds buf fd offset len = do
    guard (ltb offset (2 ^ 63))
    call kernel (lseek fd offset)
    read_loop rounds fd buf len

  -- From the open of the partition to its close: the metadata region.
  unfoldable pub read_region : ℕ → Run Machine Bytes
  unfolding bin_readall metadata_offset
  read_region rounds = do
    m ← get
    part_fd ← call kernel (open_file m.meta.device_path)
    metabuf ← on_fail (close_fd kernel part_fd) (do
      part_size ← common_get_part_size kernel part_fd
      bin_readall rounds zero_buf part_fd (metadata_offset part_size) part_meta_data_size)
    close_fd kernel part_fd
    pure metabuf

  -- Signature and data are taken from the buffer; only what was verified is parsed.
  unfoldable pub verify_and_parse : Bytes → Bytes → Run Machine (Unit {0})
  unfolding c_string
  verify_and_parse metabuf keyfile = do
    let meta_len = length (c_string metabuf)
    guard (ltb meta_len (part_meta_data_size - part_meta_sig_length - 1))
    crypto_verify_signature kernel (take (meta_len + 1) metabuf) (drop (meta_len + 1) metabuf)
        keyfile
    parse_metadata kernel (c_string metabuf)

  unfoldable pub load_verify_metadata : ℕ → Bytes → Run Machine (Unit {0})
  unfolding read_region verify_and_parse
  load_verify_metadata rounds keyfile = do
    metabuf ← read_region rounds
    verify_and_parse metabuf keyfile

-- ===== src/Tests/Metadata.antt =====
-- A partition with signed metadata, and the theorems on the load and the parsing at it.
use cominit.Base.{
  zero, suc, ◌∷◌, [], ◌++◌, ◌≡◌, refl, arith, ap, sym, ◌∙◌, Bytes, codes, take, replicate, length,
  length-take, some,
}
use cominit.Base.Run.{done, failed, hung, state}
use cominit.Base.Run.Safety.{Safe}
use cominit.Machine.{
  Machine, Kernel, Answer, ok, open_file, close, get_size, read, sha256, keyctl_read, waitpid,
}
use cominit.Meta.Load.{
  c_string, zero_buf, load_verify_metadata, read_region, read_loop, overwrite, bin_readall,
  verify_and_parse, metadata_offset,
}
use cominit.Meta.Load.Reading.{
  ReadsFit, ReadsSome, read_loop-Safe, read_loop-end_of_file, read_loop-two_reads,
}
use cominit.Meta.Load.Errors.{load_verify_metadata-small}
use cominit.Meta.Load.Verified.{Loaded, load_verify_metadata-Loaded}
use cominit.Crypto.{crypto_verify_signature, verify_with_key}
use cominit.Crypto.Verified.{Checked, crypto_verify_signature-Checked}
use cominit.Meta.Hex.{bytes_to_hex, hex_to_bytes, hex_to_bytes-bytes_to_hex}
use cominit.Meta.Safety.{IsBounded, KeysFit, parse_metadata-Safe}
use cominit.Meta.Parse.{parse_metadata}
use cominit.Libc.Str.{starts_with, strchr_cut, strtok, strtok_rest}
use cominit.Libc.Strtoul.{strtoul}
use cominit.Meta.Verity.{gen_verity_dm_tbl, verity_table}
use cominit.Tests.{verity_text, start}

abbrev pub region : Bytes
region = take 4096 (verity_text ++ (0 ∷ replicate 4096 7))

-- A kernel with that region at the end of each device, for which each signature fits.
abbrev pub signed : Kernel
signed trace (open_file p) = ok 3 []
signed trace (get_size fd) = ok 8192 []
signed trace (read fd n) = ok (length (take n region)) (take n region)
signed trace (sha256 b) = ok 0 (1 ∷ 2 ∷ [])
signed trace (keyctl_read id n) = ok 1 (5 ∷ [])
signed trace (waitpid pid) = ok 0 []
signed trace _ = ok 1 []

pub signed-ReadsFit : ReadsFit signed
signed-ReadsFit trace fd n k bytes e =
    let size : k ≡ length (take n region) = cc in
    let wrote : bytes ≡ take n region = cc in
    (ap length wrote ∙ sym size, omega (arith, size, length-take n region))

pub signed-ReadsSome : ReadsSome signed
signed-ReadsSome trace fd (suc n) k bytes h e =
    let size : k ≡ length (take (suc n) region) = cc in omega (arith, size)
signed-ReadsSome trace fd zero k bytes h e = absurd (omega arith)

signed-KeysFit : KeysFit signed
signed-KeysFit trace id n bytes e = let size : n ≡ 1 = cc in omega (arith, size)

abbrev checked : Machine
checked = state (crypto_verify_signature signed (1 ∷ []) (2 ∷ []) (codes "/pub.pem") start)

crypto_verify_signature-done :
    crypto_verify_signature signed (1 ∷ []) (2 ∷ []) (codes "/pub.pem") start
    ≡ done (ok 1 []) checked
unfolding crypto_verify_signature verify_with_key
crypto_verify_signature-done = refl

crypto_verify_signature-Checked_example :
    Checked (1 ∷ []) (2 ∷ []) (codes "/pub.pem") [] checked.trace × (checked.meta ≡ start.meta)
crypto_verify_signature-Checked_example =
    crypto_verify_signature-Checked signed (1 ∷ []) (2 ∷ []) (codes "/pub.pem") start checked
      crypto_verify_signature-done

hex_to_bytes-bytes_to_hex_example : hex_to_bytes (bytes_to_hex (0 ∷ 200 ∷ [])) ≡ some (0 ∷ 200 ∷ [])
hex_to_bytes-bytes_to_hex_example =
    hex_to_bytes-bytes_to_hex (0 ∷ 200 ∷ []) (omega arith, (omega arith, tt))

start-IsBounded : IsBounded (codes "/dev/sda2") start
start-IsBounded = record {
  fs_type_fits = omega arith;
  table_fits = omega arith;
  size_fits = omega arith;
  crypt_fits = omega arith;
  not_combined = omega arith;
  same_device = refl;
}

parse_metadata-Safe_example :
    Safe (IsBounded (codes "/dev/sda2")) (parse_metadata signed verity_text start)
parse_metadata-Safe_example =
    parse_metadata-Safe signed (codes "/dev/sda2") verity_text start signed-KeysFit start-IsBounded

read_loop-Safe_example :
    Safe (λ t. t.meta ≡ start.meta) (read_loop signed 10 3 (replicate 10 0) 10 start)
read_loop-Safe_example =
    read_loop-Safe signed 10 3 10 (replicate 10 0) start signed-ReadsFit signed-ReadsSome
      (omega arith) (omega arith)

-- A kernel with an empty device, and one that delivers a byte at a time.
abbrev empty : Kernel
empty trace c = ok 0 []

read_loop-end_of_file_example :
    (t : Machine) × (read_loop empty 5 0 (replicate 4 0) 4 start ≡ hung t)
read_loop-end_of_file_example =
    read_loop-end_of_file empty 5 0 4 (replicate 4 0) start (λ trace n. refl) (omega arith)
      (omega arith)

abbrev bytewise : Kernel
bytewise [] c = ok 1 (7 ∷ [])
bytewise (e ∷ trace) c = ok 1 (8 ∷ [])

read_loop-two_reads_example :
    (t : Machine) × (read_loop bytewise 2 0 (0 ∷ 0 ∷ []) 2 start ≡ done (8 ∷ 0 ∷ []) t)
read_loop-two_reads_example =
    read_loop-two_reads bytewise 0 0 2 1 (0 ∷ 0 ∷ []) (7 ∷ []) (8 ∷ []) start (omega arith)
      (omega arith) (omega arith) refl refl

load_verify_metadata-small_example :
    (r : Answer) × (load_verify_metadata empty 5 [] start
      ≡ failed (record start {
        trace =
            (close 0, r) ∷ (get_size 0, ok 0 []) ∷ (open_file (codes "/dev/sda2"), ok 0 []) ∷ [];
      }))
load_verify_metadata-small_example =
    load_verify_metadata-small empty 5 0 0 [] [] [] start refl refl (omega arith)

abbrev loaded : Machine
loaded = state (load_verify_metadata signed 4096 (codes "/pub.pem") start)

load_verify_metadata-done :
    load_verify_metadata signed 4096 (codes "/pub.pem") start ≡ done tt loaded
unfolding load_verify_metadata read_region verify_and_parse bin_readall read_loop overwrite
    crypto_verify_signature verify_with_key parse_metadata starts_with strchr_cut strtok strtok_rest
    gen_verity_dm_tbl verity_table strtoul c_string zero_buf metadata_offset
load_verify_metadata-done = refl

load_verify_metadata-Loaded_example : Loaded signed 4096 (codes "/pub.pem") start loaded
load_verify_metadata-Loaded_example =
    load_verify_metadata-Loaded signed 4096 (codes "/pub.pem") start loaded signed-ReadsFit
      load_verify_metadata-done

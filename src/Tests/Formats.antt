-- ===== src/Tests/Formats.antt =====
-- Metadata in the format of README.md, and the theorems on what is parsed from it.
use cominit.Base.{
  ◌≤◌, ◌∷◌, [], ◌++◌, ◌≡◌, refl, arith, true, false, Bytes, codes, length, replicate,
}
use cominit.Base.Run.{done, fault}
use cominit.Machine.{Machine, Kernel, ok, err, keyctl_search, keyctl_read, log}
use cominit.Meta.Parse.{parse_metadata}
use cominit.Meta.Integrity.{
  process_option, key_option, has_optional_key, process_key, strstr_colons,
}
use cominit.Libc.Printf.{decimal, hex_digit}
use cominit.Keyring.{keyring_get_key}
use cominit.Meta.Hex.{bytes_to_hex}
use cominit.Meta.Render.{Settings, verity, integrity, plain, render, store, join}
use cominit.Meta.Render.Verity.{
  Verity, IsVerity, render_verity, with_verity, without_tables, verity_tail, table_line,
  parse_metadata-render_verity, parse_metadata-render_plain,
}
use cominit.Meta.Render.Integrity.{
  Integrity, render_integrity, with_integrity, with_size, table_of, parse_metadata-render_integrity,
}
use cominit.Meta.Render.Integrity.Options.{Expands, stop, keyed_option}
use cominit.Meta.Render.Integrity.Keys.{
  key_text, digits, keyed, internal_hash, process_option-key, process_option-long_key,
}
use cominit.Tests.{one_key, start}

abbrev squashfs : Settings
squashfs = record { fs_type = codes "squashfs"; ro = true; crypt = verity }

abbrev volume : Verity
volume = record {
  version = codes "1";
  data_block_size = 4096;
  hash_block_size = codes "4096";
  num_data_blocks = 100;
  hash_start_block = codes "1";
  algorithm = codes "sha256";
  digest_and_salt = codes "ab cd";
}

volume-IsVerity : IsVerity volume
volume-IsVerity = ground arith

volume-fits : length (table_line volume start.meta.device_path) ≤ 1023
unfolding table_line join verity_tail decimal
volume-fits = omega arith

parse_metadata-render_verity_example :
    parse_metadata one_key (render squashfs (render_verity volume) []) start
    ≡ done tt (with_verity volume (without_tables (store squashfs start)))
parse_metadata-render_verity_example =
    parse_metadata-render_verity one_key squashfs volume [] start refl (ground arith) (ground arith)
      volume-IsVerity volume-fits

abbrev ext4_plain : Settings
ext4_plain = record { fs_type = codes "ext4"; ro = false; crypt = plain }

parse_metadata-render_plain_example :
    parse_metadata one_key (render ext4_plain (codes "1 2") []) start
    ≡ done tt (without_tables (store ext4_plain start))
parse_metadata-render_plain_example =
    parse_metadata-render_plain one_key ext4_plain (codes "1 2") [] start refl (ground arith)
      (ground arith) (ground arith)

abbrev ext4 : Settings
ext4 = record { fs_type = codes "ext4"; ro = false; crypt = integrity }

abbrev hash_option : Bytes
hash_option = codes "internal_hash:hmac(sha256)::k"

abbrev journaled : Integrity
journaled = record { num_data_blocks = 1000; data_block_size = 512; options = hash_option ∷ [] }

abbrev hash_text : Bytes
hash_text = codes "internal_hash:hmac(sha256):0aff30 "

abbrev sized : Machine
sized = with_size journaled (without_tables (store ext4 start))

abbrev keyed_end : Machine
keyed_end =
    log (keyctl_read 7 512) 3 (0x0A ∷ 0xFF ∷ 0x30 ∷ []) (log (keyctl_search (codes "k")) 7 [] sized)

process_option-hash : process_option one_key hash_option sized ≡ done hash_text keyed_end
unfolding process_option has_optional_key process_key strstr_colons keyring_get_key key_option
    bytes_to_hex
process_option-hash = refl

abbrev whole_text : Bytes
whole_text = key_text (codes "internal_hash") (codes "hmac(sha256)") (0x0A ∷ 0xFF ∷ 0x30 ∷ []) ++ []

expands : Expands one_key (hash_option ∷ []) whole_text sized keyed_end
expands =
    keyed_option {name = codes "internal_hash"} {algorithm = codes "hmac(sha256)"} (ground arith)
      (internal_hash refl) (ground arith) (ground arith) (omega arith) refl refl (omega arith)
      (omega arith) refl stop

text-fits : length whole_text ≤ 1023
unfolding key_text digits hex_digit
text-fits = omega arith

table-fits : length (table_of journaled keyed_end.meta.device_path whole_text) ≤ 1023
unfolding table_of join key_text digits decimal
table-fits = omega arith

parse_metadata-render_integrity_example :
    parse_metadata one_key (render ext4 (render_integrity journaled) []) start
    ≡ done tt (with_integrity journaled whole_text keyed_end)
parse_metadata-render_integrity_example =
    parse_metadata-render_integrity one_key ext4 journaled [] whole_text start keyed_end refl
      (ground arith) (ground arith) (ground arith) expands text-fits table-fits

process_option-key_example :
    process_option one_key (keyed (codes "internal_hash") (codes "hmac(sha256)") (codes "k")) start
    ≡ done (key_text (codes "internal_hash") (codes "hmac(sha256)") (0x0A ∷ 0xFF ∷ 0x30 ∷ [])) (
        log
          (keyctl_read 7 512)
          3
          (0x0A ∷ 0xFF ∷ 0x30 ∷ [])
          (log (keyctl_search (codes "k")) 7 [] start))
process_option-key_example =
    process_option-key one_key (codes "internal_hash") (codes "hmac(sha256)") b'k' [] start 7 3 []
      (0x0A ∷ 0xFF ∷ 0x30 ∷ []) (internal_hash refl) (ground arith) (ground arith) (omega arith)
      refl refl (omega arith) (omega arith) refl

-- A kernel with a key of 600 bytes.
abbrev long_key : Kernel
long_key trace (keyctl_search d) = ok 7 []
long_key trace (keyctl_read i n) = ok 600 (replicate 512 1)
long_key trace _ = err 1

process_option-long_key_example :
    process_option long_key (keyed (codes "internal_hash") (codes "hmac(sha256)") (codes "k")) start
    ≡ fault
        (log (keyctl_read 7 512) 600 (replicate 512 1) (log (keyctl_search (codes "k")) 7 [] start))
process_option-long_key_example =
    process_option-long_key long_key (codes "internal_hash") (codes "hmac(sha256)") b'k' [] start 7
      600 [] (replicate 512 1) (internal_hash refl) (ground arith) (ground arith) (omega arith) refl
      refl (omega arith)

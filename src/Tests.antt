-- ===== src/Tests.antt =====
-- Runs on concrete inputs, and the theorems at inputs that meet their hypotheses.
mod Metadata
mod Formats
mod Rootfs
mod Boots
mod Mains
mod Disks
mod Options
mod Tpms
use cominit.Base.{◌∷◌, [], ◌++◌, ◌≡◌, refl, true, false, Bytes, codes}
use cominit.Base.Run.{done}
use cominit.Machine.{Kernel, Machine, ok, err, zero_meta, keyctl_search, keyctl_read}
use cominit.Libc.Str.{starts_with, strchr_cut, strtok, strtok_rest}
use cominit.Libc.Printf.{decimal}
use cominit.Libc.Strtoul.{strtoul}
use cominit.Meta.Integrity.{gen_integrity_dm_tbl, process_options, integrity_table}
use cominit.Meta.Parse.{parse_metadata}
use cominit.Meta.Verity.{gen_verity_dm_tbl, verity_table}

-- A kernel with one key, of three bytes.
abbrev pub one_key : Kernel
one_key trace (keyctl_search d) = ok 7 []
one_key trace (keyctl_read i n) = ok 3 (0x0A ∷ 0xFF ∷ 0x30 ∷ [])
one_key trace _ = err 1

abbrev pub start : Machine
start = record { meta = record zero_meta { device_path = codes "/dev/sda2" }; trace = [] }

abbrev pub verity_text : Bytes
verity_text =
    codes "1 squashfs ro verity" ++ (0xFF ∷ (codes "1 4096 4096 100 1 sha256 ab cd" ++ (0xFF ∷ [])))

abbrev pub integrity_text : Bytes
integrity_text =
    codes "1 ext4 rw integrity"
    ++ (0xFF ∷ (codes "978936 512 2 internal_hash:hmac(sha256)::k fix_padding" ++ (0xFF ∷ [])))

parse_verity :
    parse_metadata one_key verity_text start
    ≡ done tt (record start {
      meta = record {
        device_path = codes "/dev/sda2";
        fs_type = codes "squashfs";
        ro = true;
        crypt = 1;
        dm_verint_data_size_bytes = 409600;
        dm_crypt_data_size_bytes = 0;
        dm_table_verint = codes "1 /dev/sda2 /dev/sda2 4096 4096 100 1 sha256 ab cd";
        dm_table_crypt = [];
      };
    })
unfolding parse_metadata starts_with strchr_cut strtok strtok_rest gen_verity_dm_tbl verity_table
    strtoul
parse_verity = refl

parse_integrity :
    parse_metadata one_key integrity_text start
    ≡ done tt (record {
      meta = record {
        device_path = codes "/dev/sda2";
        fs_type = codes "ext4";
        ro = false;
        crypt = 2;
        dm_verint_data_size_bytes = 501215232;
        dm_crypt_data_size_bytes = 0;
        dm_table_verint =
            codes "/dev/sda2 0 - J 3 block_size:512 internal_hash:hmac(sha256):0aff30 fix_padding ";
        dm_table_crypt = [];
      };
      trace =
          (keyctl_read 7 512, ok 3 (0x0A ∷ 0xFF ∷ 0x30 ∷ []))
          ∷ (keyctl_search (codes "k"), ok 7 [])
          ∷ [];
    })
unfolding parse_metadata starts_with strchr_cut strtok strtok_rest gen_integrity_dm_tbl strtoul
    process_options integrity_table decimal
parse_integrity = refl

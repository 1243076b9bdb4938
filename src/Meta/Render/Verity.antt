-- ===== src/Meta/Render/Verity.antt =====
-- The dm-verity table that comes out of metadata in the format of README.md.
use cominit.Base.{
  ap, ℕ, ◌*◌, ◌%◌, ◌<◌, ◌≤◌, [], ◌∷◌, ◌++◌, ◌≡◌, ◌≢◌, refl, ◌∙◌, arith, Bytes, length, take-le,
  lt→ltb, All-append, some,
}
use cominit.Base.Run.{done}
use cominit.Libc.Printf.{decimal, decimal-ne-nil, decimal-IsDigit, IsDigit-Lacks, strtoul-decimal}
use cominit.Libc.Str.{Lacks, strtok, strtok_rest, strtok-append}
use cominit.Libc.Strtoul.{ulong_mod}
use cominit.Machine.{Machine, Kernel}
use cominit.Meta.Parse.{gen_tables, parse_metadata}
use cominit.Meta.Render.{
  Settings, IsWord, join, crypt_bits, verity, plain, render, store, parse_metadata-render,
}
use cominit.Meta.Verity.{space, verity_table, gen_verity_dm_tbl}

pub record Verity : Type 0 where
  pub version : Bytes
  pub data_block_size : ℕ
  pub hash_block_size : Bytes
  pub num_data_blocks : ℕ
  pub hash_start_block : Bytes
  pub algorithm : Bytes
  pub digest_and_salt : Bytes

-- What follows the version.
unfoldable pub verity_tail : Verity → Bytes
unfolding join
verity_tail v = join (
    decimal v.data_block_size
    ∷ v.hash_block_size
    ∷ decimal v.num_data_blocks
    ∷ v.hash_start_block
    ∷ v.algorithm
    ∷ v.digest_and_salt
    ∷ [])

unfoldable pub render_verity : Verity → Bytes
unfolding verity_tail
render_verity v = v.version ++ (b' ' ∷ verity_tail v)

-- The line of the table: the device of the data and that of the hashes stand behind the version.
unfoldable pub table_line : Verity → Bytes → Bytes
unfolding join verity_tail
table_line v path = join (v.version ∷ path ∷ path ∷ verity_tail v ∷ [])

pub record IsVerity (v : Verity) : Type 0 where
  pub version_word : IsWord v.version
  pub hash_size_word : IsWord v.hash_block_size
  pub start_word : IsWord v.hash_start_block
  pub algorithm_word : IsWord v.algorithm
  pub digest_no_separator : Lacks 0xFF v.digest_and_salt
  pub block_size_fits : v.data_block_size < ulong_mod
  pub num_blocks_fits : v.num_data_blocks < ulong_mod

-- The table and the size of the volume in bytes, in 64 bits.
abbrev pub with_verity : Verity → Machine → Machine
with_verity v m = record m {
  meta = record m.meta {
    dm_table_verint = table_line v m.meta.device_path;
    dm_verint_data_size_bytes = (v.data_block_size * v.num_data_blocks) % ulong_mod;
  };
}

pub decimal-IsWord : (n : ℕ) → IsWord (decimal n)
decimal-IsWord n = record {
  ne_nil = decimal-ne-nil n;
  no_space = IsDigit-Lacks space (decimal n) (omega arith) (decimal-IsDigit n);
  no_separator = IsDigit-Lacks 0xFF (decimal n) (omega arith) (decimal-IsDigit n);
}

strtok-IsWord : (s rest : Bytes) → IsWord s → strtok space (s ++ (space ∷ rest)) ≡ some (s, rest)
strtok-IsWord s rest w = strtok-append space s rest w.ne_nil w.no_space

strtok_rest-ne-nil : (s rest : Bytes) → s ≢ [] → strtok_rest (s ++ rest) ≡ some (s ++ rest)
unfolding strtok_rest
strtok_rest-ne-nil [] rest h = absurd (h refl)
strtok_rest-ne-nil (c ∷ s) rest h = refl

gen_verity_dm_tbl-render :
    (v : Verity) (m : Machine)
    → IsVerity v
    → m.meta.crypt ≡ 1
    → length (table_line v m.meta.device_path) ≤ 1023
    → gen_verity_dm_tbl (render_verity v) m ≡ done tt (with_verity v m)
unfolding gen_verity_dm_tbl render_verity table_line verity_table join
gen_verity_dm_tbl-render v m w is_verity fits =
    let line = table_line v m.meta.device_path in
    let block = decimal-IsWord v.data_block_size in
    let blocks = decimal-IsWord v.num_data_blocks in
    rw (
      is_verity,
      strtok-IsWord v.version (verity_tail v) w.version_word,
      strtok_rest-ne-nil (decimal v.data_block_size) _ block.ne_nil,
      take-le 1023 line fits,
      lt→ltb (length line) 1024 (omega arith),
      strtok-IsWord (decimal v.data_block_size) _ block,
      strtoul-decimal v.data_block_size w.block_size_fits,
      strtok-IsWord v.hash_block_size _ w.hash_size_word,
      strtok-IsWord (decimal v.num_data_blocks) _ blocks,
      strtoul-decimal v.num_data_blocks w.num_blocks_fits,
      strtok-IsWord v.hash_start_block _ w.start_word,
      strtok-IsWord v.algorithm _ w.algorithm_word,
    )

-- No separator comes in with a blank between two pieces.
pub Lacks-spaced : (a b : Bytes) → Lacks 0xFF a → Lacks 0xFF b → Lacks 0xFF (a ++ (space ∷ b))
Lacks-spaced a b ha hb = All-append (λ c. c ≢ 0xFF) a (space ∷ b) ha (omega arith, hb)

render_verity-Lacks : (v : Verity) → IsVerity v → Lacks 0xFF (render_verity v)
unfolding render_verity verity_tail join
render_verity-Lacks v w = Lacks-spaced v.version _ w.version_word.no_separator (
    Lacks-spaced (decimal v.data_block_size) _ (decimal-IsWord v.data_block_size).no_separator (
      Lacks-spaced v.hash_block_size _ w.hash_size_word.no_separator (
        Lacks-spaced (decimal v.num_data_blocks) _ (decimal-IsWord v.num_data_blocks).no_separator (
          Lacks-spaced v.hash_start_block _ w.start_word.no_separator
            (Lacks-spaced v.algorithm _ w.algorithm_word.no_separator w.digest_no_separator)))))

-- `meta->dmTableVerint[0] = '\0'` and `meta->dmTableCrypt[0] = '\0'`
abbrev pub without_tables : Machine → Machine
without_tables m = record m { meta = record m.meta { dm_table_verint = []; dm_table_crypt = [] } }

gen_tables-verity :
    (kernel : Kernel) (v : Verity) (m : Machine)
    → IsVerity v
    → m.meta.crypt ≡ 1
    → length (table_line v m.meta.device_path) ≤ 1023
    → gen_tables kernel (render_verity v) m ≡ done tt (with_verity v (without_tables m))
unfolding gen_tables
gen_tables-verity kernel v m w is_verity fits =
    ground (arith, gen_verity_dm_tbl-render v (without_tables m) w is_verity fits)

-- Metadata that is written in the format of README.md for a dm-verity rootfs, whose words are not
-- empty and hold neither a blank nor 0xFF, whose file system name and table fit their buffers and
-- whose block numbers fit 64 bits, is parsed: the settings are stored, the table is the version,
-- the device twice and the rest, and the size is the product of block size and count in 64 bits.
pub parse_metadata-render_verity :
    (kernel : Kernel) (s : Settings) (v : Verity) (crypt_table : Bytes) (m : Machine)
    → s.crypt ≡ verity
    → IsWord s.fs_type
    → length s.fs_type ≤ 31
    → IsVerity v
    → length (table_line v m.meta.device_path) ≤ 1023
    → parse_metadata kernel (render s (render_verity v) crypt_table) m
      ≡ done tt (with_verity v (without_tables (store s m)))
parse_metadata-render_verity kernel s v crypt_table m is_verity fs fs_fits w fits =
    parse_metadata-render kernel s (render_verity v) crypt_table m fs fs_fits
      (render_verity-Lacks v w)
    ∙ gen_tables-verity kernel v (store s m) w (ap crypt_bits is_verity) fits

gen_tables-other :
    (kernel : Kernel) (text : Bytes) (m : Machine)
    → m.meta.crypt ≢ 1
    → m.meta.crypt ≢ 2
    → gen_tables kernel text m ≡ done tt (without_tables m)
unfolding gen_tables
gen_tables-other kernel text m h k = ground arith

-- Metadata for a plain rootfs is parsed whatever the two table blocks hold (the first without
-- 0xFF): the settings are stored and both tables are empty.
pub parse_metadata-render_plain :
    (kernel : Kernel) (s : Settings) (verint crypt_table : Bytes) (m : Machine)
    → s.crypt ≡ plain
    → IsWord s.fs_type
    → length s.fs_type ≤ 31
    → Lacks 0xFF verint
    → parse_metadata kernel (render s verint crypt_table) m ≡ done tt (without_tables (store s m))
parse_metadata-render_plain kernel s verint crypt_table m is_plain fs fs_fits lacks =
    parse_metadata-render kernel s verint crypt_table m fs fs_fits lacks
    ∙ gen_tables-other kernel verint (store s m) (λ e. cc (ap crypt_bits is_plain, e))
        (λ e. cc (ap crypt_bits is_plain, e))

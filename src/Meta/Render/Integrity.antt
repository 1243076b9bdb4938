-- ===== src/Meta/Render/Integrity.antt =====
-- The dm-integrity table that comes out of metadata in the format of README.md, with its keys.
pub mod Keys
pub mod Options
use cominit.Base.{
  All, ◌==◌, ==_iff, ℕ, zero, suc, ap, ◌+◌, ◌-◌, ◌*◌, ◌%◌, ◌<◌, ◌≤◌, List, [], ◌∷◌, ◌++◌, Option,
  none, some, ◌≡◌, ◌≢◌, ◌⊎◌, inl, inr, ◌∙◌, sym, refl, arith, Bool, true, false, Bytes, length,
  length-append, length-pos, take, take-le, lt→ltb, ltb, codes, append_assoc, append-nil,
}
use cominit.Base.Run.{Run, Outcome, done, failed, fault}
use cominit.Keyring.{keyring_get_key}
use cominit.Libc.Printf.{decimal, strtoul-decimal}
use cominit.Libc.Str.{
  Lacks, starts_with, starts_with-append, strtok, strtok_rest, strtok-append, strtok-end,
}
use cominit.Libc.Strtoul.{strtoul, ulong_mod}
use cominit.Machine.{Machine, Kernel, ok, keyctl_search, keyctl_read, log}
use cominit.Meta.Integrity.{
  has_optional_key, strstr_colons, key_option, process_option, process_options, integrity_table,
  gen_integrity_dm_tbl,
}
use cominit.Meta.Parse.{gen_tables, parse_metadata}
use cominit.Meta.Render.{
  Settings, IsWord, join, crypt_bits, integrity, render, store, parse_metadata-render,
}
use cominit.Meta.Render.Integrity.Options.{Expands, process_options-Expands, Expands-IsWord}
use cominit.Meta.Render.Verity.{decimal-IsWord, Lacks-spaced, without_tables}
use cominit.Meta.Verity.{space}

pub record Integrity : Type 0 where
  pub num_data_blocks : ℕ
  pub data_block_size : ℕ
  pub options : List Bytes

-- `<num_data_blocks> <data_block_size> <num_additional_args> <additional> <arguments> ...`
unfoldable pub render_integrity : Integrity → Bytes
render_integrity v =
    decimal v.num_data_blocks
    ++ (space
        ∷ (decimal v.data_block_size
            ++ (space ∷ (decimal (length v.options) ++ (space ∷ join v.options)))))

-- The line of the table: one more option than in the metadata, the block size.
unfoldable pub table_of : Integrity → Bytes → Bytes → Bytes
unfolding join
table_of v path text = join (
    path
    ∷ codes "0"
    ∷ codes "-"
    ∷ codes "J"
    ∷ decimal ((length v.options + 1) % ulong_mod)
    ∷ (codes "block_size:" ++ decimal v.data_block_size)
    ∷ text
    ∷ [])

abbrev pub with_integrity : Integrity → Bytes → Machine → Machine
with_integrity v text m = record m {
  meta = record m.meta { dm_table_verint = table_of v m.meta.device_path text };
}

abbrev pub with_size : Integrity → Machine → Machine
with_size v m = record m {
  meta = record m.meta {
    dm_verint_data_size_bytes = (v.num_data_blocks * v.data_block_size) % ulong_mod;
  };
}

pub record IsIntegrity (v : Integrity) : Type 0 where
  pub some_option : v.options ≢ []
  pub num_blocks_fits : v.num_data_blocks < ulong_mod
  pub block_size_fits : v.data_block_size < ulong_mod
  pub options_fit : length v.options < ulong_mod

module _ (kernel : Kernel) where
  join-ne-nil : (os : List Bytes) → All IsWord os → os ≢ [] → join os ≢ []
  unfolding join
  join-ne-nil [] w ne = absurd (ne refl)
  join-ne-nil (o ∷ []) (w, ws) ne = w.ne_nil
  join-ne-nil ((c ∷ o) ∷ p ∷ os) (w, ws) ne = cc
  join-ne-nil ([] ∷ p ∷ os) (w, ws) ne = absurd (w.ne_nil refl)

  strtok_rest_lem : (s : Bytes) → s ≢ [] → strtok_rest s ≡ some s
  unfolding strtok_rest
  strtok_rest_lem [] h = absurd (h refl)
  strtok_rest_lem (c ∷ s) h = refl

  gen_integrity_dm_tbl-render :
      (v : Integrity) (text : Bytes) (m u : Machine)
      → IsIntegrity v
      → m.meta.crypt ≡ 2
      → Expands kernel v.options text (with_size v m) u
      → length text ≤ 1023
      → length (table_of v u.meta.device_path text) ≤ 1023
      → gen_integrity_dm_tbl kernel (render_integrity v) m ≡ done tt (with_integrity v text u)
  unfolding gen_integrity_dm_tbl render_integrity table_of integrity_table join
  gen_integrity_dm_tbl-render v text m u w is_integrity x text_fits fits =
      let blocks = decimal-IsWord v.num_data_blocks in
      let size = decimal-IsWord v.data_block_size in
      let count = decimal-IsWord (length v.options) in
      let line = table_of v u.meta.device_path text in
      let exact : (m.meta.crypt == 2) ≡ true = (==_iff m.meta.crypt 2).1 is_integrity in
      rw
        (
          exact,
          strtok-append space (decimal v.num_data_blocks) _ blocks.ne_nil blocks.no_space,
          strtoul-decimal v.num_data_blocks w.num_blocks_fits,
          strtok-append space (decimal v.data_block_size) _ size.ne_nil size.no_space,
          strtoul-decimal v.data_block_size w.block_size_fits,
          strtok-append space (decimal (length v.options)) _ count.ne_nil count.no_space,
          strtoul-decimal (length v.options) w.options_fit,
          strtok_rest_lem (join v.options)
              (join-ne-nil v.options (Expands-IsWord kernel x) w.some_option),
        )
        (rw (process_options-Expands kernel v.options text (with_size v m) u x text_fits)
          (rw (take-le 1023 line fits, lt→ltb (length line) 1024 (omega arith))))

join-Lacks : (os : List Bytes) → All IsWord os → Lacks 0xFF (join os)
unfolding join
join-Lacks [] w = tt
join-Lacks (o ∷ []) (w, ws) = w.no_separator
join-Lacks (o ∷ p ∷ os) (w, ws) =
    Lacks-spaced o (join (p ∷ os)) w.no_separator (join-Lacks (p ∷ os) ws)

render_integrity-Lacks :
    (v : Integrity) → Lacks 0xFF (join v.options) → Lacks 0xFF (render_integrity v)
unfolding render_integrity
render_integrity-Lacks v h =
    Lacks-spaced (decimal v.num_data_blocks) _ (decimal-IsWord v.num_data_blocks).no_separator (
      Lacks-spaced (decimal v.data_block_size) _ (decimal-IsWord v.data_block_size).no_separator (
        Lacks-spaced (decimal (length v.options)) _ (decimal-IsWord (length v.options)).no_separator
          h))

gen_tables-integrity :
    (kernel : Kernel) (v : Integrity) (text : Bytes) (m u : Machine)
    → IsIntegrity v
    → m.meta.crypt ≡ 2
    → Expands kernel v.options text (with_size v (without_tables m)) u
    → length text ≤ 1023
    → length (table_of v u.meta.device_path text) ≤ 1023
    → gen_tables kernel (render_integrity v) m ≡ done tt (with_integrity v text u)
unfolding gen_tables
gen_tables-integrity kernel v text m u w is_integrity x text_fits fits = ground (
  arith,
  gen_integrity_dm_tbl-render kernel v text (without_tables m) u w is_integrity x text_fits fits,
)

-- Metadata that is written in the format of README.md for a dm-integrity rootfs, with at least one
-- option, whose words are not empty and hold neither a blank nor 0xFF and whose numbers fit 64
-- bits, is parsed, if the file system name, the printed options and the table fit their buffers. Each
-- option holds a key of 1 to 512 bytes that the keyring has, behind one of the three names and an
-- algorithm, or it begins with none of these names, or it has no two colons in a row. The settings are
-- stored; the table is the device, `0 - J`, the number of options with the block size counted,
-- `block_size:` with the size, and the options as they are, a key in place of its description; the
-- stored size is the product of block count and block size in 64 bits.
pub parse_metadata-render_integrity :
    (kernel : Kernel) (s : Settings) (v : Integrity) (crypt_table text : Bytes) (m u : Machine)
    → s.crypt ≡ integrity
    → IsWord s.fs_type
    → length s.fs_type ≤ 31
    → IsIntegrity v
    → Expands kernel v.options text (with_size v (without_tables (store s m))) u
    → length text ≤ 1023
    → length (table_of v u.meta.device_path text) ≤ 1023
    → parse_metadata kernel (render s (render_integrity v) crypt_table) m
      ≡ done tt (with_integrity v text u)
parse_metadata-render_integrity kernel s v crypt_table text m u is_integrity fs fs_fits w x
      text_fits fits =
    parse_metadata-render kernel s (render_integrity v) crypt_table m fs fs_fits
      (render_integrity-Lacks v (join-Lacks v.options (Expands-IsWord kernel x)))
    ∙ gen_tables-integrity kernel v text (store s m) u w (ap crypt_bits is_integrity) x text_fits
        fits

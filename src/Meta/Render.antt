-- ===== src/Meta/Render.antt =====
-- The metadata format of README.md as a printer, and what cominitParseMetadata makes of its output.
pub mod Verity
pub mod Integrity
use Prim.Native.Nat.{bit_xor}
use cominit.Base.{
  List, ◌==◌, ℕ, Bool, true, false, [], ◌∷◌, ◌++◌, Option, none, some, ◌≡◌, ◌≢◌, refl, arith, Bytes,
  take, length, ◌≤◌, take-le, codes, append_assoc, All, All-append,
}
use cominit.Base.Run.{done, Run}
use cominit.Libc.Str.{
  Lacks, starts_with, strchr_cut, strtok, strchr_cut-append, strtok-append, strtok-end,
}
use cominit.Machine.{Machine, Kernel, RfsMeta}
use cominit.Meta.Parse.{read_mode, read_crypt, parse_settings, gen_tables, parse_metadata}
use cominit.Meta.Verity.{space}

-- Words, with a blank between two of them.
unfoldable pub join : List Bytes → Bytes
join [] = []
join (o ∷ []) = o
join (o ∷ p ∷ os) = o ++ (b' ' ∷ join (p ∷ os))

pub data Crypt : Type 0 where
  plain verity integrity crypt crypt_integrity crypt_verity : Crypt

pub record Settings : Type 0 where
  pub fs_type : Bytes
  pub ro : Bool
  pub crypt : Crypt

unfoldable pub mode_name : Bool → Bytes
mode_name true = codes "ro"
mode_name false = codes "rw"

unfoldable pub crypt_name : Crypt → Bytes
crypt_name plain = codes "plain"
crypt_name verity = codes "verity"
crypt_name integrity = codes "integrity"
crypt_name crypt = codes "crypt"
crypt_name crypt_integrity = codes "crypt-integrity"
crypt_name crypt_verity = codes "crypt-verity"

abbrev pub crypt_bits : Crypt → ℕ
crypt_bits plain = 0
crypt_bits verity = 1
crypt_bits integrity = 2
crypt_bits crypt = 4
crypt_bits crypt_integrity = 6
crypt_bits crypt_verity = 5

-- A token of the format.
pub record IsWord (s : Bytes) : Type 0 where
  pub ne_nil : s ≢ []
  pub no_space : Lacks space s
  pub no_separator : Lacks 0xFF s

-- `<meta_ver> <fstype> <mode> <crypt>`
unfoldable pub render_settings : Settings → Bytes
unfolding mode_name crypt_name
render_settings s =
    b'1' ∷ space ∷ (s.fs_type ++ (space ∷ (mode_name s.ro ++ (space ∷ crypt_name s.crypt))))

-- The three sub-blocks of the data block.
unfoldable pub render : Settings → Bytes → Bytes → Bytes
unfolding render_settings
render s verint crypt_table = render_settings s ++ (0xFF ∷ (verint ++ (0xFF ∷ crypt_table)))

-- The settings as the structure holds them.
abbrev pub store : Settings → Machine → Machine
store s m = record m {
  meta = record m.meta { fs_type = s.fs_type; ro = s.ro; crypt = crypt_bits s.crypt };
}

mode_name-IsWord : (ro : Bool) → IsWord (mode_name ro)
unfolding mode_name
mode_name-IsWord true = ground arith
mode_name-IsWord false = ground arith

crypt_name-IsWord : (c : Crypt) → IsWord (crypt_name c)
unfolding crypt_name
crypt_name-IsWord plain = ground arith
crypt_name-IsWord _ = ground arith

read_mode-mode_name : (ro : Bool) → read_mode (mode_name ro) ≡ some ro
unfolding read_mode mode_name
read_mode-mode_name true = refl
read_mode-mode_name false = refl

read_crypt-crypt_name : (c : Crypt) → read_crypt (crypt_name c) ≡ some (crypt_bits c)
unfolding read_crypt crypt_name
read_crypt-crypt_name plain = refl
read_crypt-crypt_name _ = refl

crypt_bits-allowed : (c : Crypt) → (bit_xor (crypt_bits c) 3 == 0) ≡ false
crypt_bits-allowed plain = refl
crypt_bits-allowed _ = refl

first_token :
    (s : Settings)
    → strtok space (render_settings s)
      ≡ some (codes "1", s.fs_type ++ (space ∷ (mode_name s.ro ++ (space ∷ crypt_name s.crypt))))
unfolding render_settings
first_token s = strtok-append space (codes "1") _ (cc) (ground arith)

parse_settings-render_settings :
    (s : Settings) (m : Machine)
    → IsWord s.fs_type
    → length s.fs_type ≤ 31
    → parse_settings (render_settings s) m ≡ done tt (store s m)
unfolding parse_settings
parse_settings-render_settings s m w fits =
    let after_fs = mode_name s.ro ++ (space ∷ crypt_name s.crypt) in
    let word = mode_name-IsWord s.ro in
    let name = crypt_name-IsWord s.crypt in
    rw (
      first_token s,
      strtok-append space s.fs_type after_fs w.ne_nil w.no_space,
      strtok-append space (mode_name s.ro) (crypt_name s.crypt) word.ne_nil word.no_space,
      read_mode-mode_name s.ro,
      strtok-end space (crypt_name s.crypt) name.ne_nil name.no_space,
      read_crypt-crypt_name s.crypt,
      take-le 31 s.fs_type fits,
      crypt_bits-allowed s.crypt,
    )

render_settings-Lacks : (s : Settings) → IsWord s.fs_type → Lacks 0xFF (render_settings s)
unfolding render_settings
render_settings-Lacks s w =
    let tail =
      All-append (λ c. c ≢ 0xFF) (mode_name s.ro) (space ∷ crypt_name s.crypt)
        (mode_name-IsWord s.ro).no_separator
        (ground (arith, (crypt_name-IsWord s.crypt).no_separator)) in
    let all =
      All-append (λ c. c ≢ 0xFF) s.fs_type
        (space ∷ (mode_name s.ro ++ (space ∷ crypt_name s.crypt))) w.no_separator
        (omega arith, tail) in
    (omega arith, (omega arith, all))

starts_with_version :
    (s : Settings) (rest : Bytes) → starts_with (codes "1") (render_settings s ++ rest) ≡ true
unfolding starts_with render_settings
starts_with_version s rest = refl

-- What `render` writes is read back: the settings are stored, and the tables are made from the
-- second sub-block alone.
pub parse_metadata-render :
    (kernel : Kernel) (s : Settings) (verint crypt_table : Bytes) (m : Machine)
    → IsWord s.fs_type
    → length s.fs_type ≤ 31
    → Lacks 0xFF verint
    → parse_metadata kernel (render s verint crypt_table) m ≡ gen_tables kernel verint (store s m)
unfolding parse_metadata render
parse_metadata-render kernel s verint crypt_table m w fits lacks = rw (
  starts_with_version s (0xFF ∷ (verint ++ (0xFF ∷ crypt_table))),
  strchr_cut-append 0xFF (render_settings s) (verint ++ (0xFF ∷ crypt_table))
      (render_settings-Lacks s w),
  strchr_cut-append 0xFF verint crypt_table lacks,
  parse_settings-render_settings s m w fits,
)

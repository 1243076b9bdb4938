-- ===== src/Output.antt =====
-- src/output.c: the log levels, their option and what is printed at each.
pub mod Laws
use cominit.Base.{
  ℕ, ◌+◌, ◌%◌, ◌^◌, Bool, true, false, not, ◌&&◌, ◌||◌, List, [], ◌∷◌, ◌++◌, Option, none, some,
  ltb, leb, ◌==◌, if◌then◌else◌, Bytes, codes,
}
use cominit.Libc.Strtoul.{Number, strtoul_auto}

-- cominitLogLevelE_t
abbrev pub level_none : ℕ
level_none = 0

abbrev pub level_err : ℕ
level_err = 1

abbrev pub level_warn : ℕ
level_warn = 2

abbrev pub level_info : ℕ
level_info = 3

abbrev pub level_debug : ℕ
level_debug = 4

abbrev pub level_sensitive : ℕ
level_sensitive = 5

abbrev pub level_count : ℕ
level_count = 6

abbrev pub level_invalid : ℕ
level_invalid = 7

abbrev pub default_log_level : ℕ
default_log_level = level_info

-- cominitOutputSetVisibleLogLevel: the new visible level.
unfoldable pub set_visible_log_level : ℕ → ℕ
set_visible_log_level level = if level == level_invalid then default_log_level else level

-- `*s == '\0'`
unfoldable pub at_end : Bytes → Bool
at_end [] = true
at_end (c ∷ s) = false

-- cominitOutputParseLogLevel: success, and the level that is stored. The `unsigned long` that is
-- read goes through an `unsigned int`.
unfoldable pub parse_log_level : Bytes → Bool × ℕ
unfolding at_end
parse_log_level arg_value =
    let n = strtoul_auto arg_value in
    let level = n.value % 2 ^ 32 in
    if not n.range_error && at_end n.rest && ltb level level_count
    then (true, level)
    else (false, level_invalid)

-- The prefixes of the levels; NONE and INFO have none.
unfoldable pub level_prefix : ℕ → Bytes
level_prefix level =
    if level == level_err
    then codes "ERROR: "
    else if level == level_warn
    then codes "WARNING: "
    else if level == level_debug
    then codes "DEBUG: "
    else if level == level_sensitive
    then codes "SENSITIVE: "
    else []

-- What one call of fprintf or vfprintf prints.
pub data Piece : Type 0 where
  prefix : Piece
  location : Bytes → Piece
  message : Piece
  newline : Piece
  errno_text : Piece

-- The pieces of a message, in order.
unfoldable pub pieces : ℕ → Bool → List Piece
unfolding level_prefix
pieces level print_errno =
    (if level == level_info then prefix else location (level_prefix level))
    ∷ message
    ∷ newline
    ∷ (if print_errno then errno_text ∷ [] else [])

-- The calls one after another: the bytes that all of them have printed, or nothing after the first
-- that fails; and the pieces that were tried.
unfoldable pub print_all : (Piece → Option ℕ) → List Piece → ℕ → List Piece → Option ℕ × List Piece
print_all print [] count tried = (some count, tried)
print_all print (p ∷ ps) count tried = elim (print p) [
  | none ↦ (none, tried ++ p ∷ [])
  | some n ↦ print_all print ps (count + n) (tried ++ p ∷ [])
]

-- cominitOutputLogFunc; `sensitive` is whether the build enables sensitive logging, `none` stands
-- for a negative result.
unfoldable pub log_func : Bool → ℕ → (Piece → Option ℕ) → ℕ → Bool → Option ℕ × List Piece
log_func sensitive visible print level print_errno =
    if leb level level_none || leb level_count level
    then (some 0, [])
    else if ltb visible level
    then (some 0, [])
    else if not sensitive && leb level_sensitive level
    then (some 0, [])
    else print_all print (pieces level print_errno) 0 []

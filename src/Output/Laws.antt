-- ===== src/Output/Laws.antt =====
-- On the accepted log levels of src/output.c, and on the filter of messages.
use cominit.Base.{ℕ, ◌%◌, ◌^◌, ◌<◌, true, false, List, ◌≡◌, arith, ltb, if◌then◌else◌, Bytes}
use cominit.Libc.Printf.{decimal, strtoul_auto-decimal}
use cominit.Libc.Strtoul.{ulong_mod}
use cominit.Output.{parse_log_level, set_visible_log_level, level_invalid}

-- A decimal number is accepted exactly when its remainder by 2^32 is one of the six levels, and
-- this remainder becomes the level: a number from 2^32 on is not refused for its size.
pub parse_log_level-decimal :
    (n : ℕ)
    → n < ulong_mod
    → parse_log_level (decimal n)
      ≡ (if ltb (n % 2 ^ 32) 6 then (true, n % 2 ^ 32) else (false, level_invalid))
unfolding parse_log_level
parse_log_level-decimal n h = rw (strtoul_auto-decimal n h)

-- After the option with any value, set or refused, the visible level is one of the six.
pub set_visible_log_level-parse_log_level :
    (arg_value : Bytes)
    → (set_visible_log_level (parse_log_level arg_value).1 < 6)
      × ((parse_log_level arg_value).0 ≡ false
          → set_visible_log_level (parse_log_level arg_value).1 ≡ 3)
unfolding parse_log_level set_visible_log_level
set_visible_log_level-parse_log_level arg_value = ground arith

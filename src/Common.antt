-- ===== src/Common.antt =====
-- src/common.c: the size of a partition.
use cominit.Base.{ℕ}
use cominit.Base.Run.{Run}
use cominit.Machine.{Machine, Kernel, get_size, call}

-- cominitCommonGetPartSize, by BLKGETSIZE64
abbrev pub common_get_part_size : Kernel → ℕ → Run Machine ℕ
common_get_part_size kernel fd = call kernel (get_size fd)

-- ===== src/Securememory/Erasure.antt =====
-- What the buffers for keys hold when they are given back.
use cominit.Base.{ℕ, Bool, true, Bytes, ◌≤◌, length, ◌≡◌}
use cominit.Base.Run.{Run}
use cominit.Machine.{Machine, Kernel, Call, Trace, ok, munlock, free_secret, keyctl_read}
use cominit.Machine.Returns.{Returns}
use cominit.Securememory.{all_zeros}

-- A buffer for a key that is given back holds only zeros.
unfoldable pub is_erased : Call → Bool
is_erased (munlock buf) = all_zeros buf
is_erased (free_secret buf) = all_zeros buf
is_erased _ = true

-- KEYCTL_READ writes no more than it reports.
abbrev pub KeysWritten : Kernel → Type 0
KeysWritten kernel =
    (t : Trace) (id n k : ℕ) (bytes : Bytes)
    → kernel t (keyctl_read id n) ≡ ok k bytes
    → length bytes ≤ k

-- ===== src/Automount/Node.antt =====
-- cominitAutomountIsBlacklistedName and cominitAutomountBuildPartitionNode.
use cominit.Base.{
  ℕ, Bool, false, ◌&&◌, ◌||◌, [], ◌∷◌, ◌++◌, leb, ltb, if◌then◌else◌, Bytes, codes, length,
}
use cominit.Libc.Printf.{decimal, snprintf}
use cominit.Libc.Str.{starts_with}

unfoldable pub is_blacklisted_name : Bytes → Bool
unfolding starts_with
is_blacklisted_name name =
    starts_with (codes "loop") name
    || starts_with (codes "zram") name
    || starts_with (codes "dm-") name
    || starts_with (codes "md") name
    || starts_with (codes "sr") name
    || starts_with (codes "ram") name

-- `isdigit` of the last byte, if there is one
unfoldable pub ends_with_digit : Bytes → Bool
ends_with_digit [] = false
ends_with_digit (c ∷ []) = leb b'0' c && leb c b'9'
ends_with_digit (c ∷ d ∷ s) = ends_with_digit (d ∷ s)

-- `%sp%u` or `%s%u`
unfoldable pub partition_node : Bytes → ℕ → Bytes
partition_node disk_name idx =
    if ends_with_digit disk_name
    then disk_name ++ (b'p' ∷ decimal idx)
    else disk_name ++ decimal idx

-- Success, and what the buffer holds.
unfoldable pub build_partition_node : Bytes → ℕ → ℕ → Bool × Bytes
build_partition_node disk_name idx size =
    let node = partition_node disk_name idx in (ltb (length node) size, snprintf size node)

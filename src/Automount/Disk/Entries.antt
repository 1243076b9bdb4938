-- ===== src/Automount/Disk/Entries.antt =====
-- On the loop over the partition table in cominitAutomountFindPartitionOnDisk.
use cominit.Base.{
  Bool, not, ◌&&◌, ◌++◌, [], ◌∷◌, ◌≢◌, ap, ◌∙◌, take, replicate, ℕ, zero, suc, ◌+◌, ◌-◌, take-le,
  ◌<◌, ◌≤◌, true, false, ==_iff, if◌then◌else◌, ◌≡◌, refl, arith, Bytes, length, le→leb, lt→ltb,
}
use cominit.Base.Run.{Run, done}
use cominit.Machine.{Machine, Kernel, Trace, ok, pread, log}
use cominit.Automount.Disk.{
  GptDisk, partition_entry_size, entry_offset, has_type, all_zero, node_for, read_exactly,
  scan_entries,
}
use cominit.Automount.Node.{partition_node, build_partition_node, ends_with_digit}
use cominit.Automount.Guid.{equal_case, format_guid}
use cominit.Libc.Printf.{decimal}

-- The node of a partition of a disk: `<disk>p<number>` where the name of the disk ends with a digit,
-- else `<disk><number>`.
pub data IsNode (disk_name : Bytes) (n : ℕ) : Bytes → Type 0 where
  behind_digit :
      (front : Bytes) (d : ℕ)
      → disk_name ≡ front ++ d ∷ []
      → b'0' ≤ d
      → d ≤ b'9'
      → IsNode disk_name n (disk_name ++ (b'p' ∷ decimal n))
  behind_other :
      ((front : Bytes) (d : ℕ) → disk_name ≡ front ++ d ∷ [] → b'0' ≤ d → ¬ (d ≤ b'9'))
      → IsNode disk_name n (disk_name ++ decimal n)

pub ends_with_digit-append :
    (front : Bytes) (d : ℕ) → b'0' ≤ d → d ≤ b'9' → ends_with_digit (front ++ d ∷ []) ≡ true
unfolding ends_with_digit
ends_with_digit-append [] d low high = ground arith
ends_with_digit-append (c ∷ []) d low high = ground arith
ends_with_digit-append (c ∷ e ∷ front) d low high = ends_with_digit-append (e ∷ front) d low high

ends_with_digit-last :
    (s : Bytes)
    → ends_with_digit s ≡ true
    → (front : Bytes) × (d : ℕ) × (s ≡ front ++ d ∷ []) × (b'0' ≤ d) × (d ≤ b'9')
unfolding ends_with_digit
ends_with_digit-last [] h = cc
ends_with_digit-last (c ∷ []) h = ([], c, refl, ground arith, ground arith)
ends_with_digit-last (c ∷ d ∷ s) h =
    let (front, e, same, low, high) = ends_with_digit-last (d ∷ s) h in
    (c ∷ front, e, ap (λ r. c ∷ r) same, low, high)

IsNode-partition_node :
    (disk_name : Bytes) (n : ℕ) (node : Bytes)
    → IsNode disk_name n node
    → partition_node disk_name n ≡ node
unfolding partition_node
IsNode-partition_node disk_name n _ (behind_digit front d same low high) =
    let digit : ends_with_digit disk_name ≡ true =
      ap ends_with_digit same ∙ ends_with_digit-append front d low high in
    rw digit refl
IsNode-partition_node disk_name n _ (behind_other no_digit) = go (ends_with_digit disk_name) refl
  where
    go :
        (b : Bool)
        → ends_with_digit disk_name ≡ b
        → (if b then disk_name ++ (b'p' ∷ decimal n) else disk_name ++ decimal n)
          ≡ disk_name ++ decimal n
    go true e =
        let (front, d, same, low, high) = ends_with_digit-last disk_name e in
        absurd (no_digit front d same low high)
    go false e = refl

-- An entry in use, one of the bytes of whose type is not zero, and whose type is printed as the one
-- that is looked for, up to case.
abbrev pub IsOfType : Bytes → Bytes → Type 0
IsOfType guid_type entry =
    (take 16 entry ≢ replicate (length (take 16 entry)) 0)
    × (equal_case (format_guid entry) guid_type ≡ true)

all_zero-replicate : (s : Bytes) → all_zero s ≡ true → s ≡ replicate (length s) 0
unfolding all_zero
all_zero-replicate [] h = refl
all_zero-replicate (c ∷ s) h =
    let first : c ≡ 0 = ground arith in
    rw first (ap (λ r. 0 ∷ r) (all_zero-replicate s (ground arith)))

all_zero-zeros : (n : ℕ) → all_zero (replicate n 0) ≡ true
unfolding all_zero
all_zero-zeros zero = refl
all_zero-zeros (suc n) = all_zero-zeros n

pub IsOfType-has_type :
    (guid_type entry : Bytes) → IsOfType guid_type entry → has_type guid_type entry ≡ true
unfolding has_type
IsOfType-has_type guid_type entry (used, same) =
    go (all_zero (take 16 entry)) (λ e. used (all_zero-replicate (take 16 entry) e)) same
  where
    go :
        (b : Bool)
        → ¬ (b ≡ true)
        → equal_case (format_guid entry) guid_type ≡ true
        → not b && equal_case (format_guid entry) guid_type ≡ true
    go true used h = absurd (used refl)
    go false used h = h

has_type-IsOfType :
    (guid_type entry : Bytes) → ¬ (IsOfType guid_type entry) → has_type guid_type entry ≡ false
unfolding has_type
has_type-IsOfType guid_type entry other =
    go (all_zero (take 16 entry)) (equal_case (format_guid entry) guid_type) refl refl
  where
    go :
        (b c : Bool)
        → all_zero (take 16 entry) ≡ b
        → equal_case (format_guid entry) guid_type ≡ c
        → not b && c ≡ false
    go true c e k = refl
    go false true e k =
        absurd
          (other ((λ zeros. cc (ap all_zero zeros, all_zero-zeros (length (take 16 entry)), e)), k))
    go false false e k = refl

module _ (kernel : Kernel) (disk : GptDisk) (fd disk_size count : ℕ) (guid_type : Bytes) (size : ℕ)
    (entry : ℕ → Bytes)
    (serves : (trace : Trace) (i : ℕ)
      → i < count
      → kernel trace (pread fd (partition_entry_size disk.hdr) (entry_offset disk i))
        ≡ ok (partition_entry_size disk.hdr) (entry i))
    (within : (i : ℕ) → i < count → entry_offset disk i ≤ disk_size) where
  abbrev scan : ℕ → ℕ → Run Machine Bytes
  scan = scan_entries kernel disk fd disk_size guid_type size

  -- The machine after the read of an entry.
  abbrev read_entry : ℕ → Machine → Machine
  read_entry idx m =
      log (pread fd (partition_entry_size disk.hdr) (entry_offset disk idx))
        (partition_entry_size disk.hdr) (entry idx) m

  scan-step :
      (left idx : ℕ) (m : Machine)
      → idx < count
      → scan (suc left) idx m
        ≡ (if has_type guid_type (entry idx)
              then node_for disk (idx + 1) size
              else scan left (suc idx))
            (read_entry idx m)
  unfolding scan_entries read_exactly
  scan-step left idx m h =
      rw
        (
          le→leb (entry_offset disk idx) disk_size (within idx h),
          serves m.trace idx h,
          (==_iff (partition_entry_size disk.hdr) (partition_entry_size disk.hdr)).1 refl,
        )
        refl

  node_for-fits :
      (idx : ℕ) (m : Machine)
      → length (partition_node disk.disk_name idx) < size
      → node_for disk idx size m ≡ done (partition_node disk.disk_name idx) m
  unfolding node_for build_partition_node
  node_for-fits idx m h =
      rw
        (
          lt→ltb (length (partition_node disk.disk_name idx)) size h,
          take-le (size - 1) (partition_node disk.disk_name idx) (omega arith),
        )
        refl

  later :
      (idx k : ℕ)
      → ((j : ℕ) → j < suc k → has_type guid_type (entry (idx + j)) ≡ false)
      → (j : ℕ) → j < k
      → has_type guid_type (entry (suc idx + j)) ≡ false
  later idx k miss j less =
      let next : idx + suc j ≡ suc idx + j = omega arith in rw next at (miss (suc j) (omega arith))

  entries-first :
      (k left idx : ℕ) (m : Machine)
      → k < left
      → idx + k < count
      → has_type guid_type (entry (idx + k)) ≡ true
      → ((j : ℕ) → j < k → has_type guid_type (entry (idx + j)) ≡ false)
      → length (partition_node disk.disk_name (idx + k + 1)) < size
      → (t : Machine) × (scan left idx m ≡ done (partition_node disk.disk_name (idx + k + 1)) t)
  entries-first k zero idx m h room hit miss fits = absurd (omega arith)
  entries-first zero (suc left) idx m h room hit miss fits =
      let here : idx + 0 ≡ idx = omega arith in
      (
        read_entry idx m,
        rw (scan-step left idx m (omega arith), here)
            (rw (rw here at hit) (node_for-fits (idx + 1) (read_entry idx m) (rw here at fits))),
      )
  entries-first (suc k) (suc left) idx m h room hit miss fits =
      let next : idx + suc k ≡ suc idx + k = omega arith in
      let here : idx + 0 ≡ idx = omega arith in
      let not_here : has_type guid_type (entry idx) ≡ false = rw here at (miss 0 (omega arith)) in
      let (t, found) =
        entries-first k left (suc idx) (read_entry idx m) (omega arith) (omega arith)
          (rw next at hit) (later idx k miss) (rw next at fits) in
      (t, rw (scan-step left idx m (omega arith), not_here, next) found)

  -- If the first `count` entries begin on the disk and are read whole, the scan of the entries from
  -- one on finds the first that is in use and whose type the code prints as the one looked for, up to
  -- case, and returns the node of the disk with the number of this entry, counted from 1, where that fits the
  -- buffer: `<disk>p<number>` if the name of the disk ends with a digit, else `<disk><number>`.
  pub scan_entries-first :
      (k left idx : ℕ) (node : Bytes) (m : Machine)
      → k < left
      → idx + k < count
      → IsOfType guid_type (entry (idx + k))
      → ((j : ℕ) → j < k → ¬ (IsOfType guid_type (entry (idx + j))))
      → IsNode disk.disk_name (idx + k + 1) node
      → length node < size
      → (t : Machine) × (scan left idx m ≡ done node t)
  scan_entries-first k left idx node m h room hit miss is_node fits =
      let same = IsNode-partition_node disk.disk_name (idx + k + 1) node is_node in
      rw same at (
        entries-first k left idx m h room (IsOfType-has_type guid_type (entry (idx + k)) hit)
          (λ j less. has_type-IsOfType guid_type (entry (idx + j)) (miss j less)) (rw same fits))

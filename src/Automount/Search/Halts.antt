-- ===== src/Automount/Search/Halts.antt =====
-- The search for a partition comes to its end, by the entries of /dev that are left.
use cominit.Base.{
  ℕ, zero, suc, ◌+◌, ◌-◌, ◌<◌, ◌≤◌, Bool, true, false, if◌then◌else◌, ltb, length, Option, none,
  some, Bytes, codes, [], ◌∷◌, ◌≡◌, refl, ◌∙◌, arith, not, ◌&&◌,
}
use cominit.Base.Run.{
  Outcome, done, failed, hung, fault, state, after, on_fail, or_fail, pure, ◌>>=◌, ◌>>◌,
}
use cominit.Automount.Disk.{
  GptDisk, terminated, node_for, find_gpt, read_gpt, read_exactly, scan_entries, search_disk,
  find_partition_on_disk,
}
use cominit.Automount.Quiet.{is_listing, probe-Respects}
use cominit.Automount.Search.{
  probe, otherwise, visit, next_name, scan_devices, find_partition, discover_rootfs,
}
use cominit.Machine.{
  Machine, Kernel, Trace, Call, Answer, ok, err, log, extern, value, opendir, readdir, closedir,
  rootfs_dev_path_max,
}
use cominit.Machine.Frame.{Frame, is_quiet}
use cominit.Machine.Halts.{
  Comes, Halts, halts, >>=-Halts, >>-Halts, guard-Halts, if-Halts, after-Comes, recovered-Comes,
}

-- How many entries were read since the directory was opened.
unfoldable pub entries_read : Trace → ℕ
entries_read [] = 0
entries_read ((opendir path, a) ∷ t) = 0
entries_read ((readdir, a) ∷ t) = suc (entries_read t)
entries_read (_ ∷ t) = entries_read t

-- A directory of no more entries: after them readdir(3) returns NULL.
abbrev pub DirectoryEnds : Kernel → ℕ → Type 0
DirectoryEnds kernel size =
    (t : Trace) → size ≤ entries_read t → next_name (kernel t readdir) ≡ none

others-entries :
    (c : Call) (a : Answer) (t : Trace)
    → is_quiet c && not (is_listing c) ≡ true
    → entries_read ((c, a) ∷ t) ≡ entries_read t
unfolding entries_read
others-entries (opendir path) a t h = cc
others-entries readdir a t h = cc
others-entries _ a t h = refl

still : Frame
still = record {
  rel = λ m t. entries_read t.trace ≡ entries_read m.trace;
  same = λ m. refl;
  through = λ l m n h k. k ∙ h;
  allows = λ c. is_quiet c && not (is_listing c);
  called = λ c a m h. others-entries c a m.trace h;
}

module _ (kernel : Kernel) where
  find_gpt-Halts : (device : Bytes) → Halts (find_gpt kernel device)
  unfolding find_gpt read_gpt read_exactly
  find_gpt-Halts device = search halts depth 20

  node_for-Halts : (disk : GptDisk) (idx size : ℕ) → Halts (node_for disk idx size)
  unfolding node_for
  node_for-Halts disk idx size = search halts depth 20

  terminated-Halts : (name : Bytes) → Halts (terminated name)
  unfolding terminated
  terminated-Halts name = record { at = λ m. go (ltb (length name) rootfs_dev_path_max) m }
    where
      go : (b : Bool) (m : Machine) → Comes (if b then done tt m else fault m)
      go true m = tt
      go false m = tt

  read_exactly-Halts : (fd size offset : ℕ) → Halts (read_exactly kernel fd size offset)
  unfolding read_exactly
  read_exactly-Halts fd size offset = search halts depth 20

  scan_entries-Halts :
      (disk : GptDisk) (fd disk_size : ℕ) (guid_type : Bytes) (size left idx : ℕ)
      → Halts (scan_entries kernel disk fd disk_size guid_type size left idx)
  unfolding scan_entries
  scan_entries-Halts disk fd disk_size guid_type size zero idx = search halts
  scan_entries-Halts disk fd disk_size guid_type size (suc left) idx =
      >>=-Halts (>>-Halts (guard-Halts _) (read_exactly-Halts fd _ _)) λ entry.
        if-Halts _ (node_for-Halts disk (idx + 1) size)
          (scan_entries-Halts disk fd disk_size guid_type size left (suc idx))

  search_disk-Halts :
      (disk : GptDisk) (fd : ℕ) (guid_type : Bytes) (size : ℕ)
      → Halts (search_disk kernel disk fd guid_type size)
  unfolding search_disk
  search_disk-Halts disk fd guid_type size = search (halts, scan_entries-Halts) depth 20

  pub find_partition_on_disk-Halts :
      (disk : GptDisk) (guid_type : Bytes) (size : ℕ)
      → Halts (find_partition_on_disk kernel disk guid_type size)
  unfolding find_partition_on_disk
  find_partition_on_disk-Halts disk guid_type size =
      search (halts, terminated-Halts, search_disk-Halts) depth 20

  probe-Halts :
      (guid_type : Bytes) (size : ℕ) (name : Bytes) → Halts (probe kernel guid_type size name)
  unfolding probe
  probe-Halts guid_type size name =
      search (halts, find_gpt-Halts, find_partition_on_disk-Halts) depth 20

  module _ (entries : ℕ) (ends : DirectoryEnds kernel entries) where
    module _ (guid_type : Bytes) (size : ℕ) where
      scan_devices-Comes :
          (rounds : ℕ) (m : Machine)
          → entries - entries_read m.trace < rounds
          → Comes (scan_devices kernel guid_type size rounds m)
      unfolding scan_devices entries_read still
      scan_devices-Comes zero m h = absurd (omega arith)
      scan_devices-Comes (suc rounds) m h =
          go (next_name (kernel m.trace readdir)) refl (scan_devices-Comes rounds)
        where
          m1 : Machine
          m1 = record m { trace = (readdir, kernel m.trace readdir) ∷ m.trace }

          left :
              (o : Outcome Machine (GptDisk × Bytes))
              → entries_read m.trace < entries
              → Comes o
              → entries_read (state o).trace ≡ suc (entries_read m.trace)
              → ((u : Machine)
                  → entries - entries_read u.trace < rounds
                  → Comes (scan_devices kernel guid_type size rounds u))
              → Comes (otherwise o (scan_devices kernel guid_type size rounds))
          left (done a u) more c e again = tt
          left (failed u) more c e again = again u (omega arith)
          left (hung u) more c e again = c
          left (fault u) more c e again = tt

          go :
              (name : Option Bytes)
              → next_name (kernel m.trace readdir) ≡ name
              → ((u : Machine)
                  → entries - entries_read u.trace < rounds
                  → Comes (scan_devices kernel guid_type size rounds u))
              → Comes
                  (visit kernel guid_type size name (scan_devices kernel guid_type size rounds) m1)
          go none e again = tt
          go (some name) e again =
              left (probe kernel guid_type size name m1) (grind (arith, ends))
                ((probe-Halts guid_type size name).at m1)
                ((probe-Respects still (λ c q. q) kernel guid_type size name).at m1) again

      -- `opendir` has set the count back.
      pub find_partition-Halts :
          (rounds : ℕ) → entries < rounds → Halts (find_partition kernel guid_type size rounds)
      unfolding find_partition entries_read
      find_partition-Halts rounds h =
          >>-Halts (guard-Halts _) (record { at = λ m. go m (kernel m.trace dev) })
        where
          dev : Call
          dev = opendir (codes "/dev")

          go :
              (m : Machine) (a : Answer)
              → Comes (
                  after (or_fail (value a) (record m { trace = (dev, a) ∷ m.trace })) (λ _.
                    on_fail (extern kernel closedir) (scan_devices kernel guid_type size rounds)
                    >>= λ found. extern kernel closedir >> pure found))
          go m (err e) = tt
          go m (ok n bytes) =
              let opened = log dev n bytes m in
              after-Comes _ _
                (recovered-Comes (extern kernel closedir)
                  (scan_devices kernel guid_type size rounds opened)
                  (scan_devices-Comes rounds opened (omega (arith, h))))
                λ a u e. tt

    pub discover_rootfs-Halts :
        (rounds : ℕ) (dev_node : Bytes)
        → entries < rounds
        → Halts (discover_rootfs kernel rounds dev_node)
    unfolding discover_rootfs
    discover_rootfs-Halts rounds [] h = search (halts, find_partition-Halts) depth 20
    discover_rootfs-Halts rounds (c ∷ dev_node) h = search halts depth 20

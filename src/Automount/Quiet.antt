-- ===== src/Automount/Quiet.antt =====
-- The search for a partition (src/automount.c) as a part of a run that does no more than a frame
-- allows.
use cominit.Base.{
  ℕ, zero, suc, ◌+◌, Bool, true, false, not, ◌&&◌, ◌≡◌, ltb, if◌then◌else◌, Option, none, some,
  Bytes, refl, length,
}
use cominit.Base.Run.{Run, Outcome, done, failed, hung, fault, state}
use cominit.Automount.Disk.{
  GptDisk, terminated, node_for, read_exactly, read_gpt, find_gpt, scan_entries, search_disk,
  find_partition_on_disk,
}
use cominit.Automount.Search.{probe, otherwise, visit, next_name, scan_devices, find_partition}
use cominit.Machine.{Machine, Kernel, Call, opendir, readdir, closedir, rootfs_dev_path_max}
use cominit.Machine.Held.Neutral.{Simple, is_neutral}
use cominit.Machine.Frame.{
  Frame, Respects, Quiet, is_quiet, respects, >>=-Respects, >>-Respects, extern-Respects,
  guard-Respects, call_out-Respects, pure-Respects, if-Respects,
}

module _ (frame : Frame) (simple : Simple frame) (kernel : Kernel) where
  pub node_for-Respects : (disk : GptDisk) (idx size : ℕ) → Respects frame (node_for disk idx size)
  unfolding node_for
  node_for-Respects disk idx size = search respects depth 20

  pub terminated-Respects : (name : Bytes) → Respects frame (terminated name)
  unfolding terminated
  terminated-Respects name = record { at = λ m. go (ltb (length name) rootfs_dev_path_max) m }
    where
      go : (b : Bool) (m : Machine) → frame.rel m (state (if b then done tt m else fault m))
      go true m = frame.same m
      go false m = frame.same m

  pub scan_entries-Respects :
      (disk : GptDisk) (fd disk_size : ℕ) (guid_type : Bytes) (size left idx : ℕ)
      → Respects frame (scan_entries kernel disk fd disk_size guid_type size left idx)
  unfolding scan_entries read_exactly
  scan_entries-Respects disk fd disk_size guid_type size zero idx = search respects
  scan_entries-Respects disk fd disk_size guid_type size (suc left) idx =
      let again = scan_entries-Respects disk fd disk_size guid_type size left (suc idx) in
      >>=-Respects frame
        (>>-Respects frame (guard-Respects frame _) (
          >>=-Respects frame (call_out-Respects frame kernel _ (simple _ refl))
            λ p. >>-Respects frame (guard-Respects frame _) (pure-Respects frame _)))
        λ entry. if-Respects frame _ (node_for-Respects disk (idx + 1) size) again

-- The calls on a directory.
abbrev pub is_listing : Call → Bool
is_listing (opendir path) = true
is_listing readdir = true
is_listing closedir = true
is_listing _ = false

-- A frame that allows the other quiet calls.
abbrev pub Probing : Frame → Type 0
Probing frame = (c : Call) → is_quiet c && not (is_listing c) ≡ true → frame.allows c ≡ true

pub Quiet-Probing : (frame : Frame) → Quiet frame → Probing frame
Quiet-Probing frame quiet c h = quiet c (go (is_quiet c) (not (is_listing c)) h)
  where
    go : (a b : Bool) → a && b ≡ true → a ≡ true
    go true b h = refl
    go false b h = cc

not_listing :
    (c : Call) → is_neutral c && is_quiet c ≡ true → is_quiet c && not (is_listing c) ≡ true
not_listing (opendir path) h = cc
not_listing readdir h = cc
not_listing closedir h = cc
not_listing _ h = cc

Probing-Simple : (frame : Frame) → Probing frame → Simple frame
Probing-Simple frame probing c h = probing c (not_listing c h)

module _ (frame : Frame) (probing : Probing frame) (kernel : Kernel) where
  find_gpt-Respects : (device : Bytes) → Respects frame (find_gpt kernel device)
  unfolding find_gpt read_gpt read_exactly
  find_gpt-Respects device = search respects depth 20

  pub find_partition_on_disk-Respects :
      (disk : GptDisk) (guid_type : Bytes) (size : ℕ)
      → Respects frame (find_partition_on_disk kernel disk guid_type size)
  unfolding find_partition_on_disk search_disk
  find_partition_on_disk-Respects disk guid_type size =
      search (respects, Probing-Simple, terminated-Respects, scan_entries-Respects) depth 20

  pub probe-Respects :
      (guid_type : Bytes) (size : ℕ) (name : Bytes)
      → Respects frame (probe kernel guid_type size name)
  unfolding probe
  probe-Respects guid_type size name =
      search (respects, find_gpt-Respects, find_partition_on_disk-Respects) depth 20

module _ (frame : Frame) (quiet : Quiet frame) (kernel : Kernel) where
  module _ (guid_type : Bytes) (size : ℕ) where
    otherwise-rel :
        {A : Type 0} (l : Machine) (o : Outcome Machine A) (rest : Run Machine A)
        → frame.rel l (state o)
        → Respects frame rest
        → frame.rel l (state (otherwise o rest))
    otherwise-rel l (done a m) rest h k = h
    otherwise-rel l (failed m) rest h k = frame.through l m _ h (k.at m)
    otherwise-rel l (hung m) rest h k = h
    otherwise-rel l (fault m) rest h k = h

    visit-Respects :
        (name : Option Bytes) {rest : Run Machine (GptDisk × Bytes)}
        → Respects frame rest
        → Respects frame (visit kernel guid_type size name rest)
    visit-Respects none h = search respects
    visit-Respects (some name) {rest} h = record {
      at = λ m.
          otherwise-rel m (probe kernel guid_type size name m) rest
            ((probe-Respects frame (Quiet-Probing frame quiet) kernel guid_type size name).at m) h;
    }

    scan_devices-Respects :
        (rounds : ℕ) → Respects frame (scan_devices kernel guid_type size rounds)
    unfolding scan_devices
    scan_devices-Respects zero = search respects
    scan_devices-Respects (suc rounds) =
        >>=-Respects frame (extern-Respects frame kernel readdir (quiet _ refl))
          λ a. visit-Respects (next_name a) (scan_devices-Respects rounds)

    pub find_partition-Respects :
        (rounds : ℕ) → Respects frame (find_partition kernel guid_type size rounds)
    unfolding find_partition
    find_partition-Respects rounds = search (respects, scan_devices-Respects) depth 20

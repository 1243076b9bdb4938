-- ===== src/Minsetup/Switch.antt =====
-- cominitSwitchIntoRootfs: what its walk removes, and the calls behind it.
use cominit.Base.{
  ℕ, zero, suc, Bool, true, false, ◌&&◌, ◌||◌, ◌==◌, ltb, if◌then◌else◌, Bytes, [], ◌∷◌, codes, ◌≡◌,
  ◌≢◌, refl, sym, ◌∙◌, arith, ◌⊎◌,
}
use cominit.Base.Run.{Outcome, ◌>>◌, pure, done, >>=-eq-done}
use cominit.Machine.{
  Machine, Kernel, RfsMeta, Trace, Answer, ok, err, mount, nftw, nftw_entry, unlink, rmdir, chdir,
  chroot, log, extern, call-eq-done, call_last-eq-done,
}
use cominit.Minsetup.{
  ms_move, ftw_f, ftw_sl, ftw_dp, reported, nftw_remove, report, nftw_loop, walk_initramfs,
  switch_into_rootfs,
}

-- A walk from the first trace: each removal follows the report of its path, as a file, as a symbolic
-- link, or as a directory below the root whose entries were reported before. The newest event first.
pub data Sweep (start : Trace) : Trace → Type 0 where
  begun : (a : Answer) → Sweep start ((nftw (codes "/"), a) ∷ start)
  passed : {t : Trace} (a : Answer) → Sweep start t → Sweep start ((nftw_entry, a) ∷ t)
  removed :
      {t : Trace} (fpath : Bytes) (tflag level : ℕ) (a : Answer)
      → (tflag ≡ ftw_f) ⊎ (tflag ≡ ftw_sl)
      → Sweep start t
      → Sweep start ((unlink fpath, a) ∷ (nftw_entry, ok tflag (level ∷ fpath)) ∷ t)
  emptied :
      {t : Trace} (fpath : Bytes) (level : ℕ) (a : Answer)
      → level ≢ 0
      → Sweep start t
      → Sweep start ((rmdir fpath, a) ∷ (nftw_entry, ok ftw_dp (level ∷ fpath)) ∷ t)

is_file :
    (tflag : ℕ) → tflag == ftw_f || tflag == ftw_sl ≡ true → (tflag ≡ ftw_f) ⊎ (tflag ≡ ftw_sl)
is_file tflag h = ground arith

is_below :
    (tflag level : ℕ) → tflag == ftw_dp && ltb 0 level ≡ true → (tflag ≡ ftw_dp) × (level ≢ 0)
is_below tflag level h = (ground arith, λ e. ground arith)

module _ (kernel : Kernel) (start : Trace) where
  -- What the walk has come to, and that it goes on.
  Goes : RfsMeta → Outcome Machine ℕ → Type 0
  Goes meta o = (u : Machine) × (o ≡ done 0 u) × (u.meta ≡ meta) × Sweep start u.trace

  nftw_remove-Goes :
      (fpath : Bytes) (tflag level : ℕ) (m : Machine)
      → Sweep start m.trace
      → Goes m.meta (
          nftw_remove kernel fpath tflag level
            (record m { trace = (nftw_entry, ok tflag (level ∷ fpath)) ∷ m.trace }))
  unfolding nftw_remove Goes
  nftw_remove-Goes fpath tflag level m s =
      go (tflag == ftw_f || tflag == ftw_sl) (tflag == ftw_dp && ltb 0 level) (is_file tflag)
        (is_below tflag level)
    where
      m1 : Machine
      m1 = record m { trace = (nftw_entry, ok tflag (level ∷ fpath)) ∷ m.trace }

      go :
          (b c : Bool)
          → (b ≡ true → (tflag ≡ ftw_f) ⊎ (tflag ≡ ftw_sl))
          → (c ≡ true → (tflag ≡ ftw_dp) × (level ≢ 0))
          → Goes m.meta (
              (if b
                  then (extern kernel (unlink fpath) >> pure 0)
                  else if c
                  then (extern kernel (rmdir fpath) >> pure 0)
                  else pure 0)
                m1)
      go true c file below = (_, refl, refl, removed fpath tflag level _ (file refl) s)
      go false true file below =
          let (is_dp, deep) = below refl in (_, refl, refl, rw is_dp (emptied fpath level _ deep s))
      go false false file below = (_, refl, refl, passed _ s)

  report-Goes :
      (a : Answer) (m : Machine)
      → Sweep start m.trace
      → Goes m.meta (report kernel a (record m { trace = (nftw_entry, a) ∷ m.trace }))
  unfolding report Goes
  report-Goes (ok tflag []) m s = (_, refl, refl, passed _ s)
  report-Goes (ok tflag (level ∷ fpath)) m s = nftw_remove-Goes fpath tflag level m s
  report-Goes (err e) m s = (_, refl, refl, passed _ s)

  nftw_loop-Sweep :
      (left : ℕ) (m : Machine)
      → Sweep start m.trace
      → (u : Machine) × (nftw_loop kernel left m ≡ done tt u)
        × (u.meta ≡ m.meta)
        × Sweep start u.trace
  unfolding nftw_loop Goes
  nftw_loop-Sweep zero m s = (m, refl, refl, s)
  nftw_loop-Sweep (suc left) m s =
      let (u, e, kept, t) = report-Goes (kernel m.trace nftw_entry) m s in
      let (v, f, same, w) = nftw_loop-Sweep left u t in (v, rw e f, same ∙ kept, w)

-- The walk ends, in a removal of what it reported and nothing else.
pub walk_initramfs-Sweep :
    (kernel : Kernel) (m : Machine)
    → (u : Machine) × (walk_initramfs kernel m ≡ done tt u)
      × (u.meta ≡ m.meta)
      × Sweep m.trace u.trace
unfolding walk_initramfs
walk_initramfs-Sweep kernel m =
    let a = kernel m.trace (nftw (codes "/")) in
    nftw_loop-Sweep kernel m.trace (reported a) _ (begun a)

-- When cominitSwitchIntoRootfs returns 0, the walk over the initramfs has removed only what it was told
-- of, files and symbolic links by unlink(2), directories below the root by rmdir(2), and the four calls
-- of the switch came behind it in this order, each answered with success; the structure is as it was.
pub switch_into_rootfs-calls :
    (kernel : Kernel) (m t : Machine) {n : ℕ}
    → switch_into_rootfs kernel m ≡ done n t
    → (walked : Machine) × Sweep m.trace walked.trace
      × (walked.meta ≡ m.meta)
      × (n1 : ℕ) × (b1 : Bytes) × (n2 : ℕ) × (b2 : Bytes) × (n3 : ℕ) × (b3 : Bytes) × (b4 : Bytes)
      × (t
          ≡ log (chdir (codes "/")) n b4 (
              log (chroot (codes ".")) n3 b3 (
                log
                  (mount (codes "/newroot") (codes "/") [] ms_move)
                  n2
                  b2
                  (log (chdir (codes "/newroot")) n1 b1 walked))))
unfolding switch_into_rootfs
switch_into_rootfs-calls kernel m t h =
    let (u, walk, kept, swept) = walk_initramfs-Sweep kernel m in
    let (_, walked, e, h0) = >>=-eq-done (walk_initramfs kernel) _ m h in
    let same : u ≡ walked = cc in
    let (n1, b1, _, h1) = call-eq-done kernel (chdir (codes "/newroot")) _ walked h0 in
    let (n2, b2, _, h2) =
      call-eq-done kernel (mount (codes "/newroot") (codes "/") [] ms_move) _ _ h1 in
    let (n3, b3, _, h3) = call-eq-done kernel (chroot (codes ".")) _ _ h2 in
    let (b4, _, h4) = call_last-eq-done kernel (chdir (codes "/")) _ h3 in
    (walked, rw same at swept, rw same at kept, n1, b1, n2, b2, n3, b3, b4, sym h4)

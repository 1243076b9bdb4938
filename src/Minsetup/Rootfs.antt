-- ===== src/Minsetup/Rootfs.antt =====
-- On cominitSetupRootfs and cominitSwitchIntoRootfs.
use cominit.Base.{
  ℕ, Bool, true, false, not, ◌&&◌, ◌==◌, if◌then◌else◌, ◌∷◌, ◌≡◌, ◌≢◌, ◌⊎◌, inl, inr, refl, ap, sym,
  ◌∙◌, arith, Bytes, codes, equal_iff, ==_iff,
}
use cominit.Base.Run.{Run, done, ◌>>=◌, pure, guard-eq-done, >>=-eq-done}
use cominit.Machine.{
  Machine, Kernel, Call, Answer, ok, err, RfsMeta, mkdir, mount, log, call_last-eq-done,
}
use cominit.Dmctl.{setup_dm_device}
use cominit.Dmctl.Setup.{IsMapped, setup_dm_device-IsMapped}
use cominit.Minsetup.{
  is_tolerated, is_mountable, attempt, setup_mapping, mount_newroot, setup_rootfs, eexist,
}

-- A success, or the error number.
abbrev pub Tolerable : ℕ → Answer → Type 0
Tolerable errno a = ((n : ℕ) × (bytes : Bytes) × (a ≡ ok n bytes)) ⊎ (a ≡ err errno)

is_tolerated-Tolerable : (errno : ℕ) (a : Answer) → is_tolerated errno a ≡ true → Tolerable errno a
unfolding is_tolerated
is_tolerated-Tolerable errno (ok n bytes) h = inl (n, bytes, refl)
is_tolerated-Tolerable errno (err e) h = inr (ap err ((==_iff e errno).0 h))

-- The call is the next event, with an answer that is no failure.
abbrev pub Tried : Call → ℕ → Machine → Machine → Type 0
Tried c errno m t = (a : Answer) × Tolerable errno a × (t ≡ record m { trace = (c, a) ∷ m.trace })

attempt-eq-done :
    {B : Type 0} (kernel : Kernel) (c : Call) (errno : ℕ) (f : Unit {0} → Run Machine B)
    (m : Machine) {b : B} {t : Machine}
    → (attempt kernel c errno >>= f) m ≡ done b t
    → (u : Machine) × Tried c errno m u × (f tt u ≡ done b t)
unfolding attempt
attempt-eq-done kernel c errno f m h =
    let a = kernel m.trace c in
    let (good, h1) =
      guard-eq-done (is_tolerated errno a) f (record m { trace = (c, a) ∷ m.trace }) h in
    (record m { trace = (c, a) ∷ m.trace }, (a, is_tolerated-Tolerable errno a good, refl), h1)

-- The device that is mounted: the one of the metadata, or the one that was mapped for it.
abbrev pub Prepared : Machine → Machine → Type 0
Prepared m t = ((m.meta.crypt ≡ 0) × (t ≡ m)) ⊎ ((m.meta.crypt ≢ 0) × IsMapped m t)

setup_mapping-Prepared :
    (kernel : Kernel) (m t : Machine)
    → setup_mapping kernel m.meta.crypt m ≡ done tt t
    → Prepared m t
unfolding setup_mapping
setup_mapping-Prepared kernel m t h = go (m.meta.crypt == 0) refl h
  where
    go :
        (b : Bool)
        → (m.meta.crypt == 0) ≡ b
        → (if b then pure tt else setup_dm_device kernel) m ≡ done tt t
        → Prepared m t
    go true e h = inl ((==_iff m.meta.crypt 0).0 e, cc)
    go false e h = inr (grind (arith, ==_iff m.meta.crypt 0), setup_dm_device-IsMapped kernel m t h)

-- A mount of the rootfs that worked. MS_RDONLY is 1.
pub record IsMounted (m t : Machine) : Type 0 where
  pub ready : Machine
  pub made : Machine
  pub n : ℕ
  pub bytes : Bytes
  pub prepared : Prepared m ready
  -- 17 is EEXIST.
  pub tried : Tried (mkdir (codes "/newroot") 493) 17 ready made
  pub mounts :
      t
      ≡ log
          (mount ready.meta.device_path
            (codes "/newroot")
            m.meta.fs_type
            (if m.meta.ro then 1 else 0))
          n
          bytes
          made
  pub only_read : m.meta.fs_type ≡ codes "squashfs" → m.meta.ro ≡ true

kept :
    (m ready : Machine)
    → Prepared m ready
    → (ready.meta.fs_type ≡ m.meta.fs_type) × (ready.meta.ro ≡ m.meta.ro)
kept m ready (inl (_, same)) = (ap (λ x. x.meta.fs_type) same, ap (λ x. x.meta.ro) same)
kept m ready (inr (_, mapped)) = (ap (λ x. x.fs_type) mapped.renamed, ap (λ x. x.ro) mapped.renamed)

is_mountable-ro :
    (meta : RfsMeta) → is_mountable meta ≡ true → meta.fs_type ≡ codes "squashfs" → meta.ro ≡ true
unfolding is_mountable
is_mountable-ro meta h e = go meta.ro (rw ((equal_iff meta.fs_type (codes "squashfs")).1 e) at h)
  where
    go : (b : Bool) → not (not b && true) ≡ true → b ≡ true
    go true h = refl
    go false h = cc

-- When cominitSetupRootfs returns 0, the rootfs is mounted at /newroot as the very last call, with
-- the type and the read-only flag of the metadata: the metadata's own device when it asks for no
-- mapping, else the node that cominitSetupDmDevice has mapped with success; /newroot was made or
-- was there before, and a squashfs is mounted read-only.
pub setup_rootfs-IsMounted :
    (kernel : Kernel) (m t : Machine) {n : ℕ} → setup_rootfs kernel m ≡ done n t → IsMounted m t
unfolding setup_rootfs mount_newroot
setup_rootfs-IsMounted kernel m t {n} h =
    let (good, h1) = guard-eq-done (is_mountable m.meta) _ m h in
    let (_, ready, h2, h3) = >>=-eq-done (setup_mapping kernel m.meta.crypt) _ m h1 in
    let (made, tried, h4) =
      attempt-eq-done kernel (mkdir (codes "/newroot") 493) eexist _ ready h3 in
    let (bytes, _, h5) = call_last-eq-done kernel _ made h4 in
    let prepared = setup_mapping-Prepared kernel m ready h2 in
    let (same_type, same_ro) = kept m ready prepared in
    let same_meta : made.meta ≡ ready.meta = ap (λ x. x.meta) tried.2 in
    record {
      ready = ready;
      made = made;
      n = n;
      bytes = bytes;
      prepared = prepared;
      tried = tried;
      mounts = sym h5 ∙ rw (same_meta, same_type, same_ro) refl;
      only_read = is_mountable-ro m.meta good;
    }

-- ===== src/Dmctl/Setup.antt =====
-- On the calls of cominitSetupDmDevice, and its refusals.
use mathlib.Core.Path.{subst}
use cominit.Base.{
  Bool, true, ◌==◌, if◌then◌else◌, codes, ℕ, ◌/◌, false, not, none, some, ◌∷◌, ◌≡◌, ◌≢◌, refl,
  arith, Bytes, take, ==_iff,
}
use cominit.Base.Run.{
  Outcome, done, failed, hung, fault, after, ◌>>◌, pure, recovered, on_fail, >>=-eq-done,
  or_fail-eq-done, recovered-eq-done,
}
use cominit.Machine.{
  RfsMeta, Machine, Kernel, Answer, ok, open_file, close, dm_create, dm_load, dm_resume, mknod,
  close_fd, call-eq-done, call_last-eq-done,
}
use cominit.Dmctl.{
  target_type, set_device_path, mapped_path, control_node, rootfs_dm_name, map_device,
  create_new_dm_device, load_dm_table, start_dm_device, setup_dm_device,
}
use cominit.Meta.Load.Errors.{Closes}

-- The target of the metadata: for verity it is read-only.
pub data Target (meta : RfsMeta) : Bytes → Type 0 where
  verity : meta.crypt ≡ 1 → meta.ro ≡ true → Target meta (codes "verity")
  integrity : meta.crypt ≡ 2 → Target meta (codes "integrity")

target_type-Target :
    (meta : RfsMeta) (target : Bytes) → target_type meta ≡ some target → Target meta target
unfolding target_type
target_type-Target meta target h = go (meta.crypt == 1) (meta.ro) (meta.crypt == 2) refl refl refl h
  where
    go :
        (b r c : Bool)
        → (meta.crypt == 1) ≡ b
        → meta.ro ≡ r
        → (meta.crypt == 2) ≡ c
        → (if b
            then (if r then some (codes "verity") else none)
            else if c
            then some (codes "integrity")
            else none)
          ≡ some target
        → Target meta target
    go true true c e1 e2 e3 h = subst (Target meta) (cc h) (verity ((==_iff meta.crypt 1).0 e1) e2)
    go true false c e1 e2 e3 h = cc
    go false r true e1 e2 e3 h = subst (Target meta) (cc h) (integrity ((==_iff meta.crypt 2).0 e3))
    go false r false e1 e2 e3 h = cc

-- A setup that worked: what was asked, from the older events on, and what became of the structure.
pub record IsMapped (m t : Machine) : Type 0 where
  pub target : Bytes
  pub fd : ℕ
  pub dev_id : ℕ
  pub n_load : ℕ
  pub n_resume : ℕ
  pub n_mknod : ℕ
  pub b_open : Bytes
  pub b_create : Bytes
  pub b_load : Bytes
  pub b_resume : Bytes
  pub b_mknod : Bytes
  pub closed : Answer
  pub targets : Target m.meta target
  pub events :
      t.trace
      ≡ (close fd, closed)
        ∷ (mknod (codes "/dev/mapper/rootfs") (not m.meta.ro) dev_id, ok n_mknod b_mknod)
        ∷ (dm_resume fd dev_id, ok n_resume b_resume)
        ∷ (
          dm_load fd dev_id m.meta.ro
              (m.meta.dm_verint_data_size_bytes / 512)
              target
              (take 1023 m.meta.dm_table_verint),
          ok n_load b_load,
        )
        ∷ (dm_create fd (codes "rootfs"), ok dev_id b_create)
        ∷ (open_file (codes "/dev/mapper/control"), ok fd b_open)
        ∷ m.trace
  pub renamed : t.meta ≡ record m.meta { device_path = codes "/dev/mapper/rootfs" }

-- When cominitSetupDmDevice returns 0, it has created the device, loaded one table that ends at the
-- data's last whole sector, of the target the metadata asks for (verity, which must be read-only, or integrity) and read-only where it says so,
-- resumed the device, made its node, writable only if not read-only, each with success, and closed
-- the control node; of the structure only the path has changed, to the node's.
pub setup_dm_device-IsMapped :
    (kernel : Kernel) (m t : Machine) → setup_dm_device kernel m ≡ done tt t → IsMapped m t
unfolding set_device_path setup_dm_device map_device create_new_dm_device load_dm_table
    start_dm_device
setup_dm_device-IsMapped kernel m t h =
    let (target, targets, h1) = or_fail-eq-done (target_type m.meta) _ m h in
    let (fd, b1, _, h2) = call-eq-done kernel (open_file control_node) _ m h1 in
    let (n, u, mapped, closed) =
      >>=-eq-done (on_fail (close_fd kernel fd) (map_device kernel fd m.meta target)) _ _ h2 in
    let whole = recovered-eq-done (close_fd kernel fd) _ mapped in
    let (dev, b2, _, h3) = call-eq-done kernel (dm_create fd rootfs_dm_name) _ _ whole in
    let (n3, b3, _, h4) = call-eq-done kernel (dm_load fd dev _ _ target _) _ _ h3 in
    let (n4, b4, _, h5) = call-eq-done kernel (dm_resume fd dev) _ _ h4 in
    let (b5, _, h6) = call_last-eq-done kernel (mknod mapped_path (not m.meta.ro) dev) _ h5 in
    record {
      target = target;
      fd = fd;
      dev_id = dev;
      n_load = n3;
      n_resume = n4;
      n_mknod = n;
      b_open = b1;
      b_create = b2;
      b_load = b3;
      b_resume = b4;
      b_mknod = b5;
      closed = kernel u.trace (close fd);
      targets = target_type-Target m.meta target targets;
      events = ground arith;
      renamed = ground arith;
    }

closed_after :
    (kernel : Kernel) (fd : ℕ) (o : Outcome Machine ℕ)
    → Closes fd (
        after
          (recovered (close_fd kernel fd) o)
          (λ _. close_fd kernel fd >> pure {A = Unit {0}} tt))
closed_after kernel fd (done a t) = (kernel t.trace (close fd), t.trace, refl)
closed_after kernel fd (failed t) = (kernel t.trace (close fd), t.trace, refl)
closed_after kernel fd (hung t) = tt
closed_after kernel fd (fault t) = tt

-- Once the control node is open, cominitSetupDmDevice closes it as the last thing that it does,
-- whether it succeeds or fails at any of its steps.
pub setup_dm_device-Closes :
    (kernel : Kernel) (fd : ℕ) (bytes target : Bytes) (m : Machine)
    → target_type m.meta ≡ some target
    → kernel m.trace (open_file control_node) ≡ ok fd bytes
    → Closes fd (setup_dm_device kernel m)
unfolding setup_dm_device
setup_dm_device-Closes kernel fd bytes target m e1 e2 =
    rw (e1, e2, Closes) (closed_after kernel fd _)

target_type-none :
    (meta : RfsMeta) → (meta.crypt ≡ 1 → meta.ro ≡ false) → meta.crypt ≢ 2 → target_type meta ≡ none
unfolding target_type
target_type-none meta h1 h2 = grind (arith, ==_iff meta.crypt 1, ==_iff meta.crypt 2)

-- A target is refused before any call: nothing is asked of the kernel and nothing changed, unless
-- the metadata asks for verity alone and is read-only, or for integrity alone.
pub setup_dm_device-refused :
    (kernel : Kernel) (m : Machine)
    → (m.meta.crypt ≡ 1 → m.meta.ro ≡ false)
    → m.meta.crypt ≢ 2
    → setup_dm_device kernel m ≡ failed m
unfolding setup_dm_device
setup_dm_device-refused kernel m h1 h2 = rw (target_type-none m.meta h1 h2) refl

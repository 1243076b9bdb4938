-- ===== src/Keyring/Enroll.antt =====
-- On the loop of cominitKeyringInitFakeHsm.
use cominit.Base.{ℕ, zero, suc, ◌<◌, ◌≡◌, refl, arith, inl, inr, Option-cases, Bytes, length}
use cominit.Base.Run.Safety.{Safe, after-Safe}
use cominit.Libc.Str.{strtok, strtok-shorter}
use cominit.Machine.{Machine, Kernel, RfsMeta}
use cominit.Keyring.{enroll_key, fake_hsm_loop, keyring_init_fake_hsm, keyring_add_user_key}

module _ (kernel : Kernel) (meta : RfsMeta) where
  abbrev Keeps : Machine → Type 0
  Keeps m = m.meta ≡ meta

  enroll_key-Safe :
      (key_dir desc : Bytes) (m : Machine) → Keeps m → Safe Keeps (enroll_key kernel key_dir desc m)
  unfolding enroll_key keyring_add_user_key
  enroll_key-Safe key_dir desc m h = ground arith

  fake_hsm_loop-Safe :
      (fuel : ℕ) (key_dir s : Bytes) (m : Machine)
      → length s < fuel
      → Keeps m
      → Safe Keeps (fake_hsm_loop kernel fuel key_dir s m)
  unfolding fake_hsm_loop
  fake_hsm_loop-Safe zero key_dir s m lt h = absurd (omega arith)
  fake_hsm_loop-Safe (suc fuel) key_dir s m lt h = elim (Option-cases (strtok b' ' s)) [
    | inl e ↦ rw (e, Safe) h
    | inr ((desc, rest), e) ↦
        rw (e, Safe)
          (after-Safe Keeps (enroll_key kernel key_dir desc m) _ (enroll_key-Safe key_dir desc m h)
            λ n t _ ht.
              fake_hsm_loop-Safe fuel key_dir rest t (omega (arith, strtok-shorter b' ' s e)) ht)
  ]

-- Whatever the kernel answers and whatever the descriptions are, the enrolment of the development
-- keys returns, with or without success, and leaves the metadata structure as it was.
pub keyring_init_fake_hsm-Safe :
    (kernel : Kernel) (key_dir key_descs : Bytes) (m : Machine)
    → Safe (λ t. t.meta ≡ m.meta) (keyring_init_fake_hsm kernel key_dir key_descs m)
unfolding keyring_init_fake_hsm
keyring_init_fake_hsm-Safe kernel key_dir key_descs m =
    fake_hsm_loop-Safe kernel m.meta (suc (length key_descs)) key_dir key_descs m (omega arith) refl

-- ===== src/Keyring/Held.antt =====
-- The emulated HSM leaves the streams of its key files open, and nothing else.
use mathlib.Core.List.{map-append}
use mathlib.Core.Path.{subst}
use cominit.Base.{
  ℕ, zero, suc, List, [], ◌∷◌, ◌++◌, map, append_assoc, Option, none, some, Bytes, length, ◌≡◌,
  refl, sym, ap, ◌∙◌,
}
use cominit.Base.Run.{Run, Outcome, done, failed, hung, fault, after, ◌>>=◌, or_fail}
use cominit.Keyring.{enroll_key, keyring_add_user_key, fake_hsm_loop, keyring_init_fake_hsm}
use cominit.Libc.Str.{strtok}
use cominit.Machine.{Machine, Kernel, Answer, ok, err, open_file, call, value}
use cominit.Machine.Held.{Resource, descriptor, held}
use cominit.Machine.Held.Balance.{Leaves, Releases, held-Keeping}
use cominit.Machine.Held.Bracket.{releases}

abbrev pub streams : List ℕ → List Resource
streams fds = map descriptor fds

-- A function that leaves some descriptors open, wherever it ends.
pub record Spills {A : Type 0} (f : Run Machine A) : Type 0 where
  pub at : (m : Machine) → (fds : List ℕ) × Leaves (streams fds ++ held m.trace) (f m)

pub Releases-Spills : {A : Type 0} {f : Run Machine A} → Releases [] f → Spills f
Releases-Spills k = record { at = λ m. ([], k.at m _ refl) }

-- Onto what was left before.
onto :
    {A : Type 0} (o : Outcome Machine A) (more fds : List ℕ) (h : List Resource)
    → Leaves (streams more ++ (streams fds ++ h)) o
    → Leaves (streams (more ++ fds) ++ h) o
onto o more fds h l =
    let whole : streams more ++ (streams fds ++ h) ≡ streams (more ++ fds) ++ h =
      sym (append_assoc (streams more) (streams fds) h)
      ∙ ap (λ rs. rs ++ h) (sym (map-append descriptor more fds)) in
    subst (λ rs. Leaves rs o) whole l

module _ {A B : Type 0} where
  after-Spills :
      (h : List Resource) (o : Outcome Machine A) (g : A → Run Machine B) (fds : List ℕ)
      → Leaves (streams fds ++ h) o
      → ((a : A) → Spills (g a))
      → (all : List ℕ) × Leaves (streams all ++ h) (after o g)
  after-Spills h (done a t) g fds l k =
      let (more, left) = (k a).at t in (more ++ fds, onto (g a t) more fds h (rw l at left))
  after-Spills h (failed t) g fds l k = (fds, l)
  after-Spills h (hung t) g fds l k = (fds, l)
  after-Spills h (fault t) g fds l k = (fds, l)

  pub >>=-Spills :
      {f : Run Machine A} {g : A → Run Machine B}
      → Spills f
      → ((a : A) → Spills (g a))
      → Spills (f >>= g)
  >>=-Spills {f} {g} s k = record {
    at = λ m. let (fds, l) = s.at m in after-Spills (held m.trace) (f m) g fds l k;
  }

-- A file that is not closed.
opened-Spills :
    {B : Type 0} (kernel : Kernel) (path : Bytes) (g : ℕ → Run Machine B)
    → ((fd : ℕ) → Releases [] (g fd))
    → Spills (call kernel (open_file path) >>= g)
opened-Spills {B} kernel path g k = record { at = λ m. go m (kernel m.trace (open_file path)) }
  where
    go :
        (m : Machine) (a : Answer)
        → (fds : List ℕ) × Leaves
            (streams fds ++ held m.trace)
            (after (or_fail (value a) (record m { trace = (open_file path, a) ∷ m.trace })) g)
    go m (ok fd bytes) =
        (fd ∷ [], (k fd).at _ _ (held-Keeping (open_file path) (ok fd bytes) m [] _ refl refl))
    go m (err e) = ([], held-Keeping (open_file path) (err e) m [] _ refl refl)

module _ (kernel : Kernel) where
  enroll_key-Spills : (key_dir desc : Bytes) → Spills (enroll_key kernel key_dir desc)
  unfolding enroll_key keyring_add_user_key
  enroll_key-Spills key_dir desc =
      search (opened-Spills, releases, >>=-Spills, Releases-Spills) depth 20

  fake_hsm_loop-Spills :
      (fuel : ℕ) (key_dir s : Bytes) → Spills (fake_hsm_loop kernel fuel key_dir s)
  unfolding fake_hsm_loop
  fake_hsm_loop-Spills zero key_dir s = Releases-Spills (search releases)
  fake_hsm_loop-Spills (suc fuel) key_dir s = go (fake_hsm_loop-Spills fuel key_dir) (strtok b' ' s)
    where
      go :
          ((s : Bytes) → Spills (fake_hsm_loop kernel fuel key_dir s))
          → (token : Option (Bytes × Bytes))
          → Spills (λ m. elim token [
            | none ↦ done tt m
            | some (desc, rest) ↦
                (enroll_key kernel key_dir desc >>= λ _. fake_hsm_loop kernel fuel key_dir rest) m
          ])
      go again none = Releases-Spills (search releases)
      go again (some (desc, rest)) = >>=-Spills (enroll_key-Spills key_dir desc) λ _. again rest

  pub keyring_init_fake_hsm-Spills :
      (key_dir key_descs : Bytes) → Spills (keyring_init_fake_hsm kernel key_dir key_descs)
  unfolding keyring_init_fake_hsm
  keyring_init_fake_hsm-Spills key_dir key_descs =
      fake_hsm_loop-Spills (suc (length key_descs)) key_dir key_descs

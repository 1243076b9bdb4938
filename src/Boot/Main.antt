-- ===== src/Boot/Main.antt =====
-- How main ends, from the command line on.
pub mod Held
pub mod Ends
use cominit.Base.{
  ◌||◌, if◌then◌else◌, Bool, true, false, equal, equal_iff, ℕ, List, Bytes, [], ◌∷◌, codes, Option,
  none, some, ◌≡◌, refl, ◌⊎◌, inl, inr, sym, ap, ◌∙◌,
}
use cominit.Base.Run.{Run, Outcome, done, failed, hung, fault, state, or_fail, ◌>>=◌, >>=-eq-done}
use cominit.Boot.{Build, retried, start_rootfs, boot, main_run, run_parsed, main}
use cominit.Boot.Order.{Booted, boot-Booted}
use cominit.Boot.Protect.{rootfs_key_location}
use cominit.Boot.Unverified.{spares_newroot, quiet-spares, boot-unverified}
use cominit.Cli.{CliArgs, parse_args, parse_option, param_check, initial_args}
use cominit.Cli.Bounds.{IsBounded, parse_args-IsBounded}
use cominit.Machine.{
  Machine, Kernel, Call, Answer, Event, value, ok, err, execve, call, call_last-eq-done,
}
use cominit.Machine.Frame.{Respects, call-Respects}
use cominit.Machine.Frame.Added.{Adds, adds, Adds-through}
use cominit.Meta.Load.{load_verify_metadata}
use cominit.Meta.Load.Reading.{ReadsFit}

abbrev pub init : Call
init = execve (codes "/sbin/init") (codes "/sbin/init" ∷ [])

abbrev pub shell : Call
shell = execve (codes "/bin/sh") (codes "/bin/sh" ∷ [])

-- The last call is answered with a number.
abbrev pub Answered : Call → ℕ → Machine → Type 0
Answered c n t = (bytes : Bytes) × (before : List Event) × (t.trace ≡ (c, ok n bytes) ∷ before)

-- One of the arguments asks for the version or the usage.
pub data Asked : List Bytes → Type 0 where
  version :
      {arg : Bytes} {args : List Bytes}
      → (arg ≡ codes "-V") ⊎ (arg ≡ codes "--version")
      → Asked (arg ∷ args)
  usage :
      {arg : Bytes} {args : List Bytes}
      → (arg ≡ codes "-h") ⊎ (arg ≡ codes "--help")
      → Asked (arg ∷ args)
  later : {arg : Bytes} {args : List Bytes} → Asked args → Asked (arg ∷ args)

param_check-either :
    (arg short long : Bytes) → param_check arg short long ≡ true → (arg ≡ short) ⊎ (arg ≡ long)
unfolding param_check
param_check-either arg short long h = go (equal arg short) (equal arg long) refl refl h
  where
    go :
        (a b : Bool)
        → equal arg short ≡ a
        → equal arg long ≡ b
        → a || b ≡ true
        → (arg ≡ short) ⊎ (arg ≡ long)
    go true b e k h = inl ((equal_iff arg short).0 e)
    go false true e k h = inr ((equal_iff arg long).0 k)
    go false false e k h = cc

parse_args-Asked :
    (pcr_count : ℕ) (args : List Bytes) (ctx : CliArgs)
    → parse_args pcr_count args ctx ≡ none
    → Asked args
unfolding parse_args
parse_args-Asked pcr_count [] ctx h = cc
parse_args-Asked pcr_count (arg ∷ args) ctx h =
    go (param_check arg (codes "-V") (codes "--version"))
      (param_check arg (codes "-h") (codes "--help")) refl refl
      (parse_args-Asked pcr_count args next) h
  where
    next : CliArgs
    next = state (parse_option pcr_count arg ctx)

    go :
        (a b : Bool)
        → param_check arg (codes "-V") (codes "--version") ≡ a
        → param_check arg (codes "-h") (codes "--help") ≡ b
        → (parse_args pcr_count args next ≡ none → Asked args)
        → (if a || b then none else parse_args pcr_count args next) ≡ none
        → Asked (arg ∷ args)
    go true b e k rest h = version (param_check-either arg _ _ e)
    go false true e k rest h = usage (param_check-either arg _ _ k)
    go false false e k rest h = later (rest h)

-- The last call is answered with an error.
abbrev pub Refused : Call → Machine → Type 0
Refused c t = (e : ℕ) × (before : List Event) × (t.trace ≡ (c, err e) ∷ before)

-- The program that has taken over is the last that was asked of the kernel.
pub data TakenOver (kernel : Kernel) (build : Build) (pcr_count : ℕ) (argv : List Bytes) (n : ℕ)
    (t : Machine) : Type 0 where
  rescue : Answered shell n t → TakenOver kernel build pcr_count argv n t
  rootfs :
      (ctx : CliArgs)
      → parse_args pcr_count argv initial_args ≡ some ctx
      → IsBounded pcr_count ctx
      → Booted kernel build ctx t
      → Answered init n t
      → TakenOver kernel build pcr_count argv n t

-- If it returns, its last call was answered without an error, by the number that it returns.
record Asks (c : Call) (f : Run Machine ℕ) : Type 0 where
  at : (m t : Machine) (n : ℕ) → f m ≡ done n t → Answered c n t

call-Asks : (kernel : Kernel) (c : Call) → Asks c (call kernel c)
call-Asks kernel c = record {
  at = λ m t n h.
      let (bytes, _, same) = call_last-eq-done kernel c m h in
      (bytes, m.trace, sym (ap (λ (u : Machine). u.trace) same));
}

>>=-Asks :
    {A : Type 0} (c : Call) (f : Run Machine A) (g : A → Run Machine ℕ)
    → ((a : A) → Asks c (g a))
    → Asks c (f >>= g)
>>=-Asks c f g k = record {
  at = λ m t n h. let (a, u, _, h1) = >>=-eq-done f g m h in (k a).at u t n h1;
}

module _ (kernel : Kernel) (build : Build) where
  module _ (ctx : CliArgs) where
    start_rootfs-Asks : Asks init (start_rootfs kernel build ctx)
    unfolding start_rootfs
    start_rootfs-Asks = search (>>=-Asks, call-Asks) depth 20

    boot-Asks : Asks init (boot kernel build ctx)
    unfolding boot
    boot-Asks = search (>>=-Asks, start_rootfs-Asks) depth 20

  -- If read(2) reports the bytes that it wrote, the program that takes over from main, whatever the kernel
  -- gave as arguments, is the rescue shell, or it is the init of the rootfs; then the arguments were parsed
  -- to options within their bounds, and with them the boot loaded metadata that passed the verification with
  -- the key of the initramfs and does not ask for dm-crypt, came to the mount with this metadata unchanged
  -- (having called
  -- Tss2_TctiLdr_Initialize, where the build has the TPM and the options it went on with turn it on),
  -- and mounted the rootfs at /newroot from the device, with the type and the read-only flag of the metadata,
  -- or from the node that was mapped for it.
  pub main-TakenOver :
      (pcr_count : ℕ) (argv : List Bytes) (m t : Machine) (n : ℕ)
      → ReadsFit kernel
      → main kernel build pcr_count argv m ≡ done n t
      → TakenOver kernel build pcr_count argv n t
  unfolding main main_run
  main-TakenOver pcr_count argv m t n fit h = go (parse_args pcr_count argv initial_args) refl h
    where
      rescued :
          (u : Machine) → call kernel shell u ≡ done n t → TakenOver kernel build pcr_count argv n t
      rescued u e = rescue ((call-Asks kernel shell).at u t n e)

      taken :
          (ctx : CliArgs) (o : Outcome Machine ℕ)
          → parse_args pcr_count argv initial_args ≡ some ctx
          → boot kernel build ctx m ≡ o
          → retried o (call kernel shell) ≡ done n t
          → TakenOver kernel build pcr_count argv n t
      taken ctx (done k u) parsed e h =
          let whole : boot kernel build ctx m ≡ done n t = e ∙ h in
          rootfs ctx parsed (parse_args-IsBounded pcr_count argv ctx parsed)
            (boot-Booted kernel build ctx m t fit whole) ((boot-Asks ctx).at m t n whole)
      taken ctx (failed u) parsed e h = rescued u h
      taken ctx (hung u) parsed e h = cc
      taken ctx (fault u) parsed e h = cc

      go :
          (parsed : Option CliArgs)
          → parse_args pcr_count argv initial_args ≡ parsed
          → run_parsed kernel build parsed m ≡ done n t
          → TakenOver kernel build pcr_count argv n t
      go none parsed h = cc
      go (some ctx) parsed h = taken ctx (boot kernel build ctx m) parsed refl h

  -- If main comes back, then either one of the arguments is -V, --version, -h or --help, and it made no call, or the
  -- last call was that for the rescue shell, and it was answered with an error.
  pub main-failed :
      (pcr_count : ℕ) (argv : List Bytes) (m t : Machine)
      → main kernel build pcr_count argv m ≡ failed t
      → (Asked argv × (t ≡ m)) ⊎ Refused shell t
  unfolding main main_run
  main-failed pcr_count argv m t h = go (parse_args pcr_count argv initial_args) refl h
    where
      no_shell :
          (u : Machine) (a : Answer)
          → or_fail (value a) (record u { trace = (shell, a) ∷ u.trace }) ≡ failed t
          → Refused shell t
      no_shell u (ok n bytes) e = cc
      no_shell u (err e) same =
          (e, u.trace, ap (λ (o : Outcome Machine ℕ). (state o).trace) (sym same))

      left : (o : Outcome Machine ℕ) → retried o (call kernel shell) ≡ failed t → Refused shell t
      left (done k u) h = cc
      left (failed u) h = no_shell u _ h
      left (hung u) h = cc
      left (fault u) h = cc

      go :
          (parsed : Option CliArgs)
          → parse_args pcr_count argv initial_args ≡ parsed
          → run_parsed kernel build parsed m ≡ failed t
          → (Asked argv × (t ≡ m)) ⊎ Refused shell t
      go none parsed h = inl (parse_args-Asked pcr_count argv initial_args parsed, cc)
      go (some ctx) parsed h = inr (left (boot kernel build ctx m) h)

  -- If no metadata passes the load and the verification with the key of the initramfs, then, whatever the
  -- arguments are, main mounts nothing at /newroot or below it and removes no file of the initramfs, however
  -- it ends, and the only program that can take over from it is the rescue shell.
  pub main-unverified :
      ((u t : Machine)
        → ¬ (load_verify_metadata kernel build.read_rounds rootfs_key_location u ≡ done tt t))
      → (pcr_count : ℕ) (argv : List Bytes) (m : Machine)
      → Adds spares_newroot m (state (main kernel build pcr_count argv m))
        × ((n : ℕ) (t : Machine)
            → main kernel build pcr_count argv m ≡ done n t
            → Answered shell n t)
  unfolding main main_run
  main-unverified unverified pcr_count argv m = go (parse_args pcr_count argv initial_args)
    where
      spares : Respects (adds spares_newroot) (call kernel shell)
      spares = call-Respects (adds spares_newroot) kernel shell (quiet-spares shell refl)

      left :
          (o : Outcome Machine ℕ)
          → Adds spares_newroot m (state o)
          → ((n : ℕ) (t : Machine) → ¬ (o ≡ done n t))
          → Adds spares_newroot m (state (retried o (call kernel shell)))
            × ((n : ℕ) (t : Machine)
                → retried o (call kernel shell) ≡ done n t
                → Answered shell n t)
      left (done k u) added no_init = absurd (no_init k u refl)
      left (failed u) added no_init = (
        Adds-through spares_newroot m u (state (call kernel shell u)) added (spares.at u),
        λ n t h. (call-Asks kernel shell).at u t n h,
      )
      left (hung u) added no_init = (added, λ n t h. cc)
      left (fault u) added no_init = (added, λ n t h. cc)

      go :
          (parsed : Option CliArgs)
          → Adds spares_newroot m (state (run_parsed kernel build parsed m))
            × ((n : ℕ) (t : Machine)
                → run_parsed kernel build parsed m ≡ done n t
                → Answered shell n t)
      go none = (([], refl, tt), λ n t h. cc)
      go (some ctx) =
          let (added, no_init) = boot-unverified kernel build unverified ctx m in
          left (boot kernel build ctx m) added no_init

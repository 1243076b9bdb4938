-- ===== src/Boot/Protect/Started.antt =====
-- The TPM stack is set up where the options turn the TPM on.
use cominit.Base.{
  ◌++◌, ◌∷◌, if◌then◌else◌, ap, sym, ◌∙◌, append_assoc, codes, ℕ, true, false, Option, some, ◌≡◌,
  refl,
}
use cominit.Base.Run.{
  Run, Outcome, done, failed, hung, fault, state, after as sequel, ◌>>=◌, pure, >>=-eq-done,
}
use cominit.Automount.Disk.{GptDisk}
use cominit.Boot.Protect.{TpmBuild, find_secure_storage, run_tpm, protect_storage}
use cominit.Boot.Protect.Order.{find_secure_storage-Respects, use_ready_tpm-Respects}
use cominit.Cli.{CliArgs}
use cominit.Machine.{Machine, Kernel, Call, Trace, Answer, ok, err, tcti_initialize, extern}
use cominit.Cli.Tpm.{use_tpm}
use cominit.Tpm.Context.{TpmContext, tpm_selftest, init_esys, init_tpm}
use cominit.Machine.Held.Neutral.{Quiet-Simple}
use cominit.Machine.Frame.{Frame, Respects, respects}
use cominit.Machine.Frame.Added.{adds}
use cominit.Tpm.Quiet.{delete_tpm-Respects}

-- Behind some events the TPM stack was set up, with some answer.
abbrev pub StartsTpm : Machine → Machine → Type 0
StartsTpm m t =
    (before after : Trace) × (a : Answer) × (t.trace
      ≡ after ++ ((tcti_initialize (codes "device:/dev/tpm0"), a) ∷ (before ++ m.trace)))

any : Frame
any = adds (λ _. true)

-- Its first event is the call.
record Begins {A : Type 0} (c : Call) (f : Run Machine A) : Type 0 where
  at :
      (m : Machine)
      → (after : Trace) × (a : Answer) × ((state (f m)).trace ≡ after ++ ((c, a) ∷ m.trace))

extern-Begins :
    {A : Type 0} (kernel : Kernel) (c : Call) (g : Answer → Run Machine A)
    → ((a : Answer) → Respects any (g a))
    → Begins c (extern kernel c >>= g)
unfolding any
extern-Begins kernel c g k = record {
  at = λ m.
      let a = kernel m.trace c in
      let (after, e, _) = (k a).at (record m { trace = (c, a) ∷ m.trace }) in (after, a, e);
}

>>=-Begins :
    {A B : Type 0} (c : Call) (f : Run Machine A) (g : A → Run Machine B)
    → Begins c f
    → ((a : A) → Respects any (g a))
    → Begins c (f >>= g)
unfolding any
>>=-Begins {A} {B} c f g h k = record { at = λ m. go m (f m) (h.at m) }
  where
    go :
        (m : Machine) (o : Outcome Machine A)
        → ((after : Trace) × (a : Answer) × ((state o).trace ≡ after ++ ((c, a) ∷ m.trace)))
        → (after : Trace) × (a : Answer) × ((state (sequel o g)).trace
            ≡ after ++ ((c, a) ∷ m.trace))
    go m (done x u) (es, a, e) =
        let (fs, e1, _) = (k x).at u in
        (fs ++ es, a, e1 ∙ ap (λ t. fs ++ t) e ∙ sym (append_assoc fs es ((c, a) ∷ m.trace)))
    go m (failed u) p = p
    go m (hung u) p = p
    go m (fault u) p = p

init_tpm-Begins :
    (kernel : Kernel) (ctx : TpmContext)
    → Begins (tcti_initialize (codes "device:/dev/tpm0")) (init_tpm kernel ctx)
unfolding init_tpm init_esys tpm_selftest any
init_tpm-Begins kernel ctx = extern-Begins kernel _ _ rest
  where
    rest :
        (a : Answer)
        → Respects any
            (elim a [ err rc ↦ pure (false, ctx) | ok tcti bytes ↦ init_esys kernel ctx tcti ])
    rest (err rc) = search respects
    rest (ok tcti bytes) = search respects depth 20

run_tpm-Begins :
    (kernel : Kernel) (tpm : TpmBuild) (ctx : CliArgs)
    → use_tpm ctx ≡ true
    → Begins (tcti_initialize (codes "device:/dev/tpm0")) (run_tpm kernel tpm ctx)
unfolding run_tpm any
run_tpm-Begins kernel tpm ctx used =
    rw (used, if◌then◌else◌)
      (>>=-Begins _ (init_tpm kernel tpm.tpm_ctx) _ (init_tpm-Begins kernel tpm.tpm_ctx)
        λ p. search (respects, Quiet-Simple, use_ready_tpm-Respects, delete_tpm-Respects) depth 20)

Respects-done :
    {A : Type 0} (f : Run Machine A) (m u : Machine) {x : A}
    → Respects any f
    → f m ≡ done x u
    → (before : Trace) × (u.trace ≡ before ++ m.trace)
unfolding any
Respects-done {A} f m u k h =
    let (before, e, _) = k.at m in
    (before, ap (λ (o : Outcome Machine A). (state o).trace) (sym h) ∙ e)

Begins-done :
    {A : Type 0} (c : Call) (f : Run Machine A) (m u : Machine) {x : A}
    → Begins c f
    → f m ≡ done x u
    → (after : Trace) × (a : Answer) × (u.trace ≡ after ++ ((c, a) ∷ m.trace))
Begins-done {A} c f m u k h =
    let (after, a, e) = k.at m in
    (after, a, ap (λ (o : Outcome Machine A). (state o).trace) (sym h) ∙ e)

begun_behind :
    (m u t : Machine)
    → (before : Trace) × (u.trace ≡ before ++ m.trace)
    → (after : Trace) × (a : Answer) × (t.trace
        ≡ after ++ ((tcti_initialize (codes "device:/dev/tpm0"), a) ∷ u.trace))
    → StartsTpm m t
begun_behind m u t (before, e) (after, a, h) = (before, after, a, rw e at h)

protect_storage-StartsTpm :
    (kernel : Kernel) (tpm : TpmBuild) (rounds : ℕ) (disk : Option GptDisk) (ctx found : CliArgs)
    (m t : Machine)
    → protect_storage kernel (some tpm) rounds disk ctx m ≡ done found t
    → use_tpm found ≡ true
    → StartsTpm m t
unfolding protect_storage any
protect_storage-StartsTpm kernel tpm rounds disk ctx found m t h used =
    let (args, u, looked, h1) = >>=-eq-done (find_secure_storage kernel rounds disk ctx) _ m h in
    let (_, v, ran, h2) = >>=-eq-done (run_tpm kernel tpm args) _ u h1 in go args u v looked ran h2
  where
    go :
        (args : CliArgs) (u v : Machine)
        → find_secure_storage kernel rounds disk ctx m ≡ done args u
        → run_tpm kernel tpm args u ≡ done tt v
        → pure args v ≡ done found t
        → StartsTpm m t
    go args u v looked ran h =
        let same : args ≡ found = cc in
        let last : v ≡ t = cc in
        let kept = find_secure_storage-Respects any (λ c. refl) kernel rounds disk ctx in
        begun_behind m u t
          (Respects-done (find_secure_storage kernel rounds disk ctx) m u kept looked)
          (Begins-done _ (run_tpm kernel tpm args) u t
            (run_tpm-Begins kernel tpm args (ap use_tpm same ∙ used))
            (ran ∙ ap (λ w. done tt w) last))

-- If the options that the search for the partition of the storage has left turn the TPM on, its stack was
-- set up on the way.
pub built-StartsTpm :
    (kernel : Kernel) (built : Option TpmBuild) (tpm : TpmBuild) (rounds : ℕ)
    (disk : Option GptDisk) (ctx found : CliArgs) (m t : Machine)
    → protect_storage kernel built rounds disk ctx m ≡ done found t
    → built ≡ some tpm
    → use_tpm found ≡ true
    → StartsTpm m t
built-StartsTpm kernel built tpm rounds disk ctx found m t h e used =
    protect_storage-StartsTpm kernel tpm rounds disk ctx found m t (rw e at h) used

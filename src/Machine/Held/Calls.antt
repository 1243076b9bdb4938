-- ===== src/Machine/Held/Calls.antt =====
-- The rules for calls: what they get is held from then on, and what they take back must be.
use cominit.Base.{ℕ, zero, suc, List, [], ◌∷◌, ◌++◌, Bytes, ◌≡◌, refl, ◌∙◌, append-nil}
use cominit.Base.Run.{Run, after, ◌>>=◌, ◌>>◌, or_fail}
use cominit.Machine.{Machine, Kernel, Call, Answer, ok, err, extern, call, call_out, value, written}
use cominit.Machine.Held.{Resource, gained, held}
use cominit.Machine.Held.Balance.{
  Leaves, Releases, Gives, Steady, Keeping, Clean, Taking, held-Keeping, held-Taking,
  or_fail-Releases, >>=-Releases,
}

module _ (kernel : Kernel) (c : Call) where
  module _ {B : Type 0} where
    -- By the two answers.
    pub answered-Releases :
        {rs : List Resource} (g : Answer → Run Machine B)
        → Keeping c
        → ((n : ℕ) (bytes : Bytes) → Releases (gained c (ok n bytes) ++ rs) (g (ok n bytes)))
        → ((e : ℕ) → Releases (gained c (err e) ++ rs) (g (err e)))
        → Releases rs (extern kernel c >>= g)
    answered-Releases {rs} g keeping k l = record {
      at = λ m h e.
          (go (kernel m.trace c)).at _ h (held-Keeping c (kernel m.trace c) m rs h keeping e);
    }
      where
        go : (a : Answer) → Releases (gained c a ++ rs) (g a)
        go (ok n bytes) = k n bytes
        go (err e) = l e

    -- By the two sides of a fork, and its error.
    pub forked-Releases :
        {rs : List Resource} (g : Answer → Run Machine B)
        → Keeping c
        → ((bytes : Bytes) → Releases (gained c (ok 0 bytes) ++ rs) (g (ok 0 bytes)))
        → ((n : ℕ) (bytes : Bytes)
            → Releases (gained c (ok (suc n) bytes) ++ rs) (g (ok (suc n) bytes)))
        → ((e : ℕ) → Releases (gained c (err e) ++ rs) (g (err e)))
        → Releases rs (extern kernel c >>= g)
    forked-Releases {rs} g keeping child parent failing = answered-Releases g keeping go failing
      where
        go : (n : ℕ) (bytes : Bytes) → Releases (gained c (ok n bytes) ++ rs) (g (ok n bytes))
        go zero bytes = child bytes
        go (suc n) bytes = parent n bytes

    pub extern-Releases :
        {rs : List Resource} {g : Answer → Run Machine B}
        → Keeping c
        → ((a : Answer) → Releases (gained c a ++ rs) (g a))
        → Releases rs (extern kernel c >>= g)
    extern-Releases {rs} keeping k = record {
      at = λ m h e. (k _).at _ h (held-Keeping c (kernel m.trace c) m rs h keeping e);
    }

    pub Taking-Releases :
        {r : Resource} {rs : List Resource} {g : Answer → Run Machine B}
        → Taking c r
        → ((a : Answer) → Releases rs (g a))
        → Releases (r ∷ rs) (extern kernel c >>= g)
    Taking-Releases {r} {rs} taking k = record {
      at = λ m h e. (k _).at _ h (held-Taking c (kernel m.trace c) r m rs h taking e);
    }

    pub call-Releases :
        {g : ℕ → Run Machine B}
        → Keeping c
        → Clean c
        → ((n : ℕ) (bytes : Bytes) → Releases (gained c (ok n bytes)) (g n))
        → Releases [] (call kernel c >>= g)
    call-Releases {g} keeping clean k = record {
      at = λ m h e. go _ h (kernel m.trace c) (held-Keeping c (kernel m.trace c) m [] h keeping e);
    }
      where
        go :
            (t : Machine) (h : List Resource) (a : Answer)
            → held t.trace ≡ (gained c a ++ []) ++ h
            → Leaves h (after (or_fail (value a) t) g)
        go t h (ok n bytes) e = (k n bytes).at t h (rw append-nil at e)
        go t h (err n) e = rw clean at e

    pub call_out-Releases :
        (g : ℕ × Bytes → Run Machine B)
        → Keeping c
        → Clean c
        → ((n : ℕ) (bytes : Bytes) → Releases (gained c (ok n bytes)) (g (n, bytes)))
        → Releases [] (call_out kernel c >>= g)
    call_out-Releases g keeping clean k = record {
      at = λ m h e. go _ h (kernel m.trace c) (held-Keeping c (kernel m.trace c) m [] h keeping e);
    }
      where
        go :
            (t : Machine) (h : List Resource) (a : Answer)
            → held t.trace ≡ (gained c a ++ []) ++ h
            → Leaves h (after (or_fail (written a) t) g)
        go t h (ok n bytes) e = (k n bytes).at t h (rw append-nil at e)
        go t h (err n) e = rw clean at e

  pub Taking-Gives : {r : Resource} → Taking c r → Gives (r ∷ []) (extern kernel c)
  Taking-Gives {r} taking = record {
    at = λ m h e. held-Taking c (kernel m.trace c) r m [] h taking e;
  }

  pub last-Releases : {r : Resource} → Taking c r → Releases (r ∷ []) (extern kernel c)
  last-Releases {r} taking = record {
    at = λ m h e. held-Taking c (kernel m.trace c) r m [] h taking e;
  }

  -- A call that neither gets nor takes anything.
  module _ (keeping : Keeping c) (plain : (a : Answer) → gained c a ≡ []) where
    kept : (m : Machine) → held ((c, kernel m.trace c) ∷ m.trace) ≡ held m.trace
    kept m = rw (held-Keeping c (kernel m.trace c) m [] (held m.trace) keeping refl, plain) refl

    pub plain-Steady : Steady (extern kernel c)
    plain-Steady = record { at = λ m. kept m }

    pub plain-Gives : Gives [] (extern kernel c)
    plain-Gives = record { at = λ m h e. kept m ∙ e }

    pub plain-Releases : Releases [] (extern kernel c)
    plain-Releases = record { at = λ m h e. kept m ∙ e }

    pub plain_call-Releases : Releases [] (call kernel c)
    plain_call-Releases =
        >>=-Releases {f = extern kernel c} plain-Releases (λ a. or_fail-Releases (value a))

    pub plain_call_out-Releases : Releases [] (call_out kernel c)
    plain_call_out-Releases =
        >>=-Releases {f = extern kernel c} plain-Releases (λ a. or_fail-Releases (written a))

module _ {B : Type 0} (kernel : Kernel) (c : Call) {g : Run Machine B} where
  pub Taking->> :
      {r : Resource} {rs : List Resource}
      → Taking c r
      → Gives rs g
      → Gives (r ∷ rs) (extern kernel c >> g)
  Taking->> {r} {rs} taking k = record {
    at = λ m h e. k.at _ h (held-Taking c (kernel m.trace c) r m rs h taking e);
  }

  pub plain->> :
      {rs : List Resource}
      → Keeping c
      → ((a : Answer) → gained c a ≡ [])
      → Gives rs g
      → Gives rs (extern kernel c >> g)
  plain->> {rs} keeping plain k = record {
    at = λ m h e. k.at _ h (rw plain at (held-Keeping c (kernel m.trace c) m rs h keeping e));
  }

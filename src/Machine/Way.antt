-- ===== src/Machine/Way.antt =====
-- Diagrams of phases, whose edges start a program or are silent, and the ways through them.
use cominit.Base.{Bool, true, false, not, if◌then◌else◌, List, [], ◌∷◌, ◌++◌, ◌≡◌, refl, ap, All}
use cominit.Machine.{Call, Answer, Trace, fork}

pub record Diagram : Type 1 where
  pub Phase : Type 0
  pub Silent : Phase → Phase → Type 0
  pub Starts : Phase → Call → Phase → Type 0

-- A way through the diagram, with the programs that it starts, the newest first.
pub data Way (d : Diagram) (p : d.Phase) : List Call → d.Phase → Type 0 where
  here : Way d p [] p
  silently : {cs : List Call} {q r : d.Phase} → Way d p cs q → d.Silent q r → Way d p cs r
  starting :
      {cs : List Call} {q r : d.Phase} {c : Call}
      → Way d p cs q
      → d.Starts q c r
      → Way d p (c ∷ cs) r

pub joined :
    {d : Diagram} {p q r : d.Phase} {cs ds : List Call}
    → Way d p cs q
    → Way d q ds r
    → Way d p (ds ++ cs) r
joined w here = w
joined w (silently v s) = silently (joined w v) s
joined w (starting v s) = starting (joined w v) s

pub preceded :
    {d : Diagram} {p q r : d.Phase} {cs : List Call} → d.Silent p q → Way d q cs r → Way d p cs r
preceded edge here = silently here edge
preceded edge (silently v s) = silently (preceded edge v) s
preceded edge (starting v s) = starting (preceded edge v) s

unfoldable pub is_start : Call → Bool
is_start (fork path argv) = true
is_start _ = false

-- The programs that were started.
unfoldable pub started : Trace → List Call
unfolding is_start
started [] = []
started ((c, a) ∷ t) = if is_start c then c ∷ started t else started t

abbrev pub starts_nothing : Call → Bool
starts_nothing c = not (is_start c)

pub started-append : (es t : Trace) → started (es ++ t) ≡ started es ++ started t
unfolding started
started-append [] t = refl
started-append ((c, a) ∷ es) t = push (is_start c) (started-append es t)
  where
    push :
        (b : Bool) {ds : List Call}
        → ds ≡ started es ++ started t
        → (if b then c ∷ ds else ds) ≡ (if b then c ∷ started es else started es) ++ started t
    push true h = ap (λ ds. c ∷ ds) h
    push false h = h

pub started-none : (es : Trace) → All (λ e. starts_nothing e.0 ≡ true) es → started es ≡ []
unfolding started
started-none [] h = refl
started-none ((c, a) ∷ es) (h, hs) = none_new (is_start c) h (started-none es hs)
  where
    none_new :
        (b : Bool) {ds : List Call} → not b ≡ true → ds ≡ [] → (if b then c ∷ ds else ds) ≡ []
    none_new true h k = cc
    none_new false h k = k

pub started-one : (c : Call) (a : Answer) → is_start c ≡ true → started ((c, a) ∷ []) ≡ c ∷ []
unfolding started
started-one c a h = rw h refl

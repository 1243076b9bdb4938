-- ===== src/Machine/Frame/Added.antt =====
-- The frames of runs that add events of calls that are allowed.
use cominit.Base.{Bool, true, [], ◌∷◌, ◌++◌, ◌≡◌, refl, sym, ap, ◌∙◌, append_assoc, All, All-append}
use cominit.Machine.{Machine, Call, Trace}
use cominit.Machine.Frame.{Frame}

-- The events are new ones in front of the old, each of a call that is allowed.
abbrev pub Adds : (Call → Bool) → Machine → Machine → Type 0
Adds allows m t = (es : Trace) × (t.trace ≡ es ++ m.trace) × All (λ e. allows e.0 ≡ true) es

pub Adds-through :
    (allows : Call → Bool) (l m n : Machine) → Adds allows l m → Adds allows m n → Adds allows l n
Adds-through allows l m n (es, e, h) (fs, f, k) =
    (fs ++ es, f ∙ ap (λ t. fs ++ t) e ∙ sym (append_assoc fs es l.trace), All-append _ fs es k h)

abbrev pub adds : (Call → Bool) → Frame
adds allows = record {
  rel = Adds allows;
  same = λ m. ([], refl, tt);
  through = Adds-through allows;
  allows = allows;
  called = λ c a m h. ((c, a) ∷ [], refl, (h, tt));
}

-- The same, and the structure of the metadata is as it was.
abbrev pub keeps : (Call → Bool) → Frame
keeps allows = record {
  rel = λ m t. Adds allows m t × (t.meta ≡ m.meta);
  same = λ m. (([], refl, tt), refl);
  through = λ l m n h k. (Adds-through allows l m n (h.0) (k.0), k.1 ∙ h.1);
  allows = allows;
  called = λ c a m h. (((c, a) ∷ [], refl, (h, tt)), refl);
}

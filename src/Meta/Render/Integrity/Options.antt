-- ===== src/Meta/Render/Integrity/Options.antt =====
-- The options of the dm-integrity table, as the loop over them prints them.
use cominit.Base.{
  ◌&&◌, ◌||◌, if◌then◌else◌, All, ◌==◌, ℕ, zero, suc, ap, ◌+◌, ◌-◌, ◌<◌, ◌≤◌, List, [], ◌∷◌, ◌++◌,
  Option, none, some, ◌≡◌, ◌≢◌, ◌⊎◌, inl, inr, ◌∙◌, sym, refl, arith, Bool, true, false, Bytes,
  length, length-append, length-pos, lt→ltb, ltb, codes, append_assoc, append-nil,
}
use cominit.Base.Run.{done}
use cominit.Libc.Str.{Lacks, starts_with, strtok, strtok-append, strtok-end}
use cominit.Machine.{Machine, Kernel, ok, keyctl_search, keyctl_read, log}
use cominit.Meta.Integrity.{
  has_optional_key, strstr_colons, process_key, process_option, process_options,
}
use cominit.Meta.Render.{IsWord, join}
use cominit.Meta.Render.Integrity.Keys.{
  KeyName, internal_hash, journal_crypt, journal_mac, keyed, key_text, process_option-key,
}
use cominit.Meta.Verity.{space}

-- An option that may not hold a key, or holds none.
abbrev pub Unkeyed : Bytes → Type 0
Unkeyed o =
    ((w rest : Bytes) → KeyName w → o ≢ w ++ (b':' ∷ rest))
    ⊎ ((a b : Bytes) → o ≢ a ++ (b':' ∷ b':' ∷ b))

-- What options are printed as, one after another, from one machine to another: one without a key as
-- it is, one with the description of a key with the payload that the kernel keyring holds under it.
pub data Expands (kernel : Kernel) : List Bytes → Bytes → Machine → Machine → Type 0 where
  stop : {m : Machine} → Expands kernel [] [] m m
  unkeyed_option :
      {o rest : Bytes} {os : List Bytes} {m u : Machine}
      → IsWord o
      → Unkeyed o
      → Expands kernel os rest m u
      → Expands kernel (o ∷ os) ((o ++ b' ' ∷ []) ++ rest) m u
  keyed_option :
      {name algorithm desc found payload rest : Bytes} {c id n : ℕ} {os : List Bytes}
      {m u : Machine}
      → IsWord (keyed name algorithm (c ∷ desc))
      → KeyName name
      → algorithm ≢ []
      → Lacks b':' algorithm
      → length (c ∷ desc) < 4095
      → kernel m.trace (keyctl_search (c ∷ desc)) ≡ ok id found
      → kernel (log (keyctl_search (c ∷ desc)) id found m).trace (keyctl_read id 512) ≡ ok n payload
      → 1 ≤ n
      → n ≤ 512
      → length payload ≡ n
      → Expands kernel os rest
          (log (keyctl_read id 512) n payload (log (keyctl_search (c ∷ desc)) id found m))
          u
      → Expands kernel
          (keyed name algorithm (c ∷ desc) ∷ os)
          (key_text name algorithm payload ++ rest)
          m
          u

starts_with-rest : (p s : Bytes) → starts_with p s ≡ true → (rest : Bytes) × (s ≡ p ++ rest)
unfolding starts_with
starts_with-rest [] s h = (s, refl)
starts_with-rest (x ∷ p) [] h = cc
starts_with-rest (x ∷ p) (c ∷ s) h =
    let (rest, e) = starts_with-rest p s (ground arith) in
    let first : c ≡ x = ground arith in (rest, rw (first, e) refl)

strstr_colons-split : (s a b : Bytes) → strstr_colons s ≡ some (a, b) → s ≡ a ++ (b':' ∷ b':' ∷ b)
unfolding strstr_colons
strstr_colons-split [] a b h = cc
strstr_colons-split (c ∷ []) a b h = cc
strstr_colons-split (c ∷ d ∷ s) a b h =
    go (c == b':' && d == b':') refl (strstr_colons (d ∷ s)) refl (strstr_colons-split (d ∷ s)) h
  where
    go :
        (t : Bool)
        → (c == b':' && d == b':') ≡ t
        → (o : Option (Bytes × Bytes)) → strstr_colons (d ∷ s) ≡ o
        → ((p q : Bytes) → strstr_colons (d ∷ s) ≡ some (p, q) → d ∷ s ≡ p ++ (b':' ∷ b':' ∷ q))
        → if◌then◌else◌ {A = Option (Bytes × Bytes)} t
            (some ([], s))
            (elim o as (λ _. Option (Bytes × Bytes)) [
              | none ↦ none
              | some (p, q) ↦ some (c ∷ p, q)
            ])
          ≡ some (a, b)
        → c ∷ d ∷ s ≡ a ++ (b':' ∷ b':' ∷ b)
    go true two o e later h =
        let first : c ≡ b':' = ground arith in
        let second : d ≡ b':' = ground arith in
        let same : ◌≡◌ {A = Bytes × Bytes} ([], s) (a, b) = cc in
        let left : [] ≡ a = ap (λ (p : Bytes × Bytes). p.0) same in
        let right : s ≡ b = ap (λ (p : Bytes × Bytes). p.1) same in
        rw (first, second, sym left, right) refl
    go false two none e later h = cc
    go false two (some (p, q)) e later h =
        let same : ◌≡◌ {A = Bytes × Bytes} (c ∷ p, q) (a, b) = cc in
        let left : c ∷ p ≡ a = ap (λ (r : Bytes × Bytes). r.0) same in
        let right : q ≡ b = ap (λ (r : Bytes × Bytes). r.1) same in
        rw (sym left, sym right) (ap (λ r. c ∷ r) (later p q e))

-- The prefix of one of the three names.
has_optional_key-name :
    (o : Bytes)
    → has_optional_key o ≡ true
    → (w rest : Bytes) × KeyName w × (o ≡ w ++ (b':' ∷ rest))
unfolding has_optional_key
has_optional_key-name o h =
    go (starts_with (codes "internal_hash:") o) (starts_with (codes "journal_crypt:") o)
      (starts_with (codes "journal_mac:") o) refl refl refl h
  where
    go :
        (a b c : Bool)
        → starts_with (codes "internal_hash:") o ≡ a
        → starts_with (codes "journal_crypt:") o ≡ b
        → starts_with (codes "journal_mac:") o ≡ c
        → a || b || c ≡ true
        → (w rest : Bytes) × KeyName w × (o ≡ w ++ (b':' ∷ rest))
    go true b c ea eb ec h =
        let (rest, e) = starts_with-rest (codes "internal_hash:") o ea in
        (codes "internal_hash", rest, internal_hash refl, e)
    go false true c ea eb ec h =
        let (rest, e) = starts_with-rest (codes "journal_crypt:") o eb in
        (codes "journal_crypt", rest, journal_crypt refl, e)
    go false false true ea eb ec h =
        let (rest, e) = starts_with-rest (codes "journal_mac:") o ec in
        (codes "journal_mac", rest, journal_mac refl, e)
    go false false false ea eb ec h = cc

-- An option with no optional key, or with none given.
pub process_option-plain :
    (kernel : Kernel) (o : Bytes) (m : Machine)
    → has_optional_key o ≡ false
    → process_option kernel o m ≡ done (o ++ space ∷ []) m
unfolding process_option
process_option-plain kernel o m h = rw h

process_option-Unkeyed :
    (kernel : Kernel) (o : Bytes) (m : Machine)
    → Unkeyed o
    → process_option kernel o m ≡ done (o ++ b' ' ∷ []) m
unfolding process_option
process_option-Unkeyed kernel o m unkeyed = go (has_optional_key o) refl unkeyed
  where
    split :
        (s : Option (Bytes × Bytes))
        → strstr_colons o ≡ s
        → ((a b : Bytes) → o ≢ a ++ (b':' ∷ b':' ∷ b))
        → process_key kernel o s m ≡ done (o ++ b' ' ∷ []) m
    split none e none_there = unfold process_key in refl
    split (some (a, b)) e none_there = absurd (none_there a b (strstr_colons-split o a b e))

    go :
        (b : Bool)
        → has_optional_key o ≡ b
        → Unkeyed o
        → process_key kernel o (if b then strstr_colons o else none) m ≡ done (o ++ b' ' ∷ []) m
    go false e u = unfold process_key in refl
    go true e (inl no_name) =
        let (w, rest, name, same) = has_optional_key-name o e in absurd (no_name w rest name same)
    go true e (inr none_there) = split (strstr_colons o) refl none_there

module _ (kernel : Kernel) where
  -- What the loop makes of the options one after another, from one machine to another.
  data Steps : List Bytes → Bytes → Machine → Machine → Type 0 where
    no_step : {m : Machine} → Steps [] [] m m
    step :
        {o text rest : Bytes} {os : List Bytes} {m t u : Machine}
        → IsWord o
        → process_option kernel o m ≡ done text t
        → Steps os rest t u
        → Steps (o ∷ os) (text ++ rest) m u

  process_options-nil :
      (fuel : ℕ) (proc : Bytes) (m : Machine)
      → 0 < fuel
      → process_options kernel fuel [] proc m ≡ done proc m
  unfolding process_options strtok
  process_options-nil zero proc m h = absurd (omega arith)
  process_options-nil (suc fuel) proc m h = refl

  process_options-step :
      (fuel : ℕ) (s o rest text proc : Bytes) (m t : Machine)
      → strtok space s ≡ some (o, rest)
      → process_option kernel o m ≡ done text t
      → length proc + length text ≤ 1023
      → process_options kernel (suc fuel) s proc m
        ≡ process_options kernel fuel rest (proc ++ text) t
  unfolding process_options
  process_options-step fuel s o rest text proc m t e p fits =
      let room : ltb (length text) (1024 - length proc) ≡ true =
        lt→ltb (length text) (1024 - length proc) (omega arith) in
      ground (arith, room)

  process_options-Steps :
      (os : List Bytes) (text : Bytes) (m u : Machine) (fuel : ℕ) (proc : Bytes)
      → Steps os text m u
      → length (join os) < fuel
      → length proc + length text ≤ 1023
      → process_options kernel fuel (join os) proc m ≡ done (proc ++ text) u
  unfolding join
  process_options-Steps os text m u zero proc x h fits = absurd (omega arith)
  process_options-Steps [] text m u (suc fuel) proc no_step h fits =
      rw append-nil (process_options-nil (suc fuel) proc m (omega arith))
  process_options-Steps (o ∷ []) text m u (suc fuel) proc (step {text = here} w p no_step) h fits =
      process_options-step fuel o o [] here proc m u (strtok-end space o w.ne_nil w.no_space) p
        (omega (arith, length-append here []))
      ∙ process_options-nil fuel (proc ++ here) u (omega (arith, length-pos o w.ne_nil))
      ∙ rw (append-nil here)
  process_options-Steps (o ∷ q ∷ os) text m u (suc fuel) proc
        (step {text = here} {rest = rest} {t = t} w p x) h fits =
      process_options-step fuel (o ++ (space ∷ join (q ∷ os))) o (join (q ∷ os)) here proc m t
        (strtok-append space o (join (q ∷ os)) w.ne_nil w.no_space) p
        (omega (arith, length-append here rest))
      ∙ process_options-Steps (q ∷ os) rest t u fuel (proc ++ here) x
          (omega (arith, length-append o (space ∷ join (q ∷ os))))
          (omega (arith, length-append here rest, length-append proc here))
      ∙ ap (λ s. done s u) (append_assoc proc here rest)

  Expands-Steps :
      {os : List Bytes} {text : Bytes} {m u : Machine}
      → Expands kernel os text m u
      → Steps os text m u
  Expands-Steps stop = no_step
  Expands-Steps (unkeyed_option {o = o} {m = m} w unkeyed x) =
      step w (process_option-Unkeyed kernel o m unkeyed) (Expands-Steps x)
  Expands-Steps
        (keyed_option {name} {algorithm} {desc} {found} {payload} {c = c} {id = id} {n = n} {m = m}
          w is_key ne no_colon short search read pos fits size x) =
      step w
        (process_option-key kernel name algorithm c desc m id n found payload is_key ne no_colon
          short search read pos fits size)
        (Expands-Steps x)

  pub Expands-IsWord :
      {os : List Bytes} {text : Bytes} {m u : Machine} → Expands kernel os text m u → All IsWord os
  Expands-IsWord stop = tt
  Expands-IsWord (unkeyed_option w unkeyed x) = (w, Expands-IsWord x)
  Expands-IsWord (keyed_option w is_key ne no_colon short search read pos fits size x) =
      (w, Expands-IsWord x)

  pub process_options-Expands :
      (os : List Bytes) (text : Bytes) (m u : Machine)
      → Expands kernel os text m u
      → length text ≤ 1023
      → process_options kernel (suc (length (join os))) (join os) [] m ≡ done text u
  process_options-Expands os text m u x fits =
      process_options-Steps os text m u (suc (length (join os))) [] (Expands-Steps x) (omega arith)
        (omega arith)

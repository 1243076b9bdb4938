-- ===== src/Meta/Load/Reading.antt =====
-- On the loop of cominitBinReadall.
use cominit.Base.{
  ◌++◌, ℕ, zero, suc, ◌+◌, ◌-◌, ◌%◌, ◌<◌, ◌≤◌, [], ◌∷◌, ◌≡◌, inl, inr, refl, arith, Bytes, length,
  drop, length-append, length-drop, lt→ltb, ◌∙◌, ap,
}
use cominit.Base.Run.{done, failed, hung}
use cominit.Base.Run.Safety.{Safe}
use cominit.Libc.Strtoul.{ulong_mod}
use cominit.Machine.{Machine, Kernel, Answer-cases, Trace, ok, err, read, log}
use cominit.Meta.Load.{read_loop, overwrite}

-- read(2): the bytes that it reports are those that it wrote, and no more than were asked for.
abbrev pub ReadsFit : Kernel → Type 0
ReadsFit kernel =
    (trace : Trace) (fd n k : ℕ) (bytes : Bytes)
    → kernel trace (read fd n) ≡ ok k bytes
    → (length bytes ≡ k) × (k ≤ n)

-- read(2) before the end of the file: at least one byte.
abbrev pub ReadsSome : Kernel → Type 0
ReadsSome kernel =
    (trace : Trace) (fd n k : ℕ) (bytes : Bytes)
    → 0 < n
    → kernel trace (read fd n) ≡ ok k bytes
    → 0 < k

length-overwrite :
    (buf bytes : Bytes) → length bytes ≤ length buf → length (overwrite buf bytes) ≡ length buf
unfolding overwrite
length-overwrite buf bytes h =
    omega (arith, length-append bytes (drop (length bytes) buf), length-drop (length bytes) buf)

module _ (kernel : Kernel) where
  -- One round, by what the kernel answers.
  read_loop-step :
      (rounds fd len k : ℕ) (buf bytes : Bytes) (m : Machine)
      → 0 < len
      → kernel m.trace (read fd len) ≡ ok k bytes
      → read_loop kernel (suc rounds) fd buf len m
        ≡ read_loop kernel rounds fd
            (overwrite buf bytes)
            ((len + ulong_mod - k) % ulong_mod)
            (log (read fd len) k bytes m)
  unfolding read_loop
  read_loop-step rounds fd len k buf bytes m h e = ground (arith, lt→ltb 0 len h)

  read_loop-err :
      (rounds fd len e : ℕ) (buf : Bytes) (m : Machine)
      → 0 < len
      → kernel m.trace (read fd len) ≡ err e
      → read_loop kernel (suc rounds) fd buf len m
        ≡ failed (record m { trace = (read fd len, err e) ∷ m.trace })
  unfolding read_loop
  read_loop-err rounds fd len e buf m h k = ground (arith, lt→ltb 0 len h)

  read_loop-zero :
      (rounds fd : ℕ) (buf : Bytes) (m : Machine) → read_loop kernel rounds fd buf 0 m ≡ done buf m
  unfolding read_loop
  read_loop-zero zero fd buf m = refl
  read_loop-zero (suc rounds) fd buf m = refl

-- If each read delivers at least one byte and at most as many as asked for, the loop returns within
-- as many rounds as there are bytes to read.
pub read_loop-Safe :
    (kernel : Kernel) (rounds fd len : ℕ) (buf : Bytes) (m : Machine)
    → ReadsFit kernel
    → ReadsSome kernel
    → len < ulong_mod
    → len ≤ rounds
    → Safe (λ t. t.meta ≡ m.meta) (read_loop kernel rounds fd buf len m)
read_loop-Safe kernel rounds fd zero buf m fit some_bytes small h =
    rw (read_loop-zero kernel rounds fd buf m) refl
read_loop-Safe kernel zero fd (suc len) buf m fit some_bytes small h = absurd (omega arith)
read_loop-Safe kernel (suc rounds) fd (suc len) buf m fit some_bytes small h =
    elim (Answer-cases (kernel m.trace (read fd (suc len)))) [
      | inl (k, bytes, e) ↦
          let fits = (fit m.trace fd (suc len) k bytes e).1 in
          let moves = some_bytes m.trace fd (suc len) k bytes (omega arith) e in
          rw (read_loop-step kernel rounds fd (suc len) k buf bytes m (omega arith) e) (
            read_loop-Safe kernel rounds fd ((suc len + ulong_mod - k) % ulong_mod)
              (overwrite buf bytes) (log (read fd (suc len)) k bytes m) fit some_bytes (omega arith)
              (omega arith))
      | inr (k, e) ↦ rw (read_loop-err kernel rounds fd (suc len) k buf m (omega arith) e) refl
    ]

-- The buffer keeps its size.
pub length-read_loop :
    (kernel : Kernel) (rounds fd len : ℕ) (buf : Bytes) (m : Machine) (out : Bytes) (m' : Machine)
    → ReadsFit kernel
    → len < ulong_mod
    → len ≤ length buf
    → read_loop kernel rounds fd buf len m ≡ done out m'
    → length out ≡ length buf
length-read_loop kernel rounds fd zero buf m out m' fit small fits h =
    ap length (cc (read_loop-zero kernel rounds fd buf m))
length-read_loop kernel zero fd (suc len) buf m out m' fit small fits h =
    unfold read_loop in ground arith
length-read_loop kernel (suc rounds) fd (suc len) buf m out m' fit small fits h =
    elim (Answer-cases (kernel m.trace (read fd (suc len)))) [
      | inl (k, bytes, e) ↦
          let (size, fewer) = fit m.trace fd (suc len) k bytes e in
          let same = length-overwrite buf bytes (omega arith) in
          length-read_loop kernel rounds fd ((suc len + ulong_mod - k) % ulong_mod)
            (overwrite buf bytes) (log (read fd (suc len)) k bytes m) out m' fit (omega arith)
            (omega arith)
            (rw (read_loop-step kernel rounds fd (suc len) k buf bytes m (omega arith) e) at h)
          ∙ same
      | inr (k, e) ↦ cc (read_loop-err kernel rounds fd (suc len) k buf m (omega arith) e)
    ]

-- At the end of the file, where each read delivers nothing, the loop never ends: no number of
-- rounds is enough.
pub read_loop-end_of_file :
    (kernel : Kernel) (rounds fd len : ℕ) (buf : Bytes) (m : Machine)
    → ((trace : Trace) (n : ℕ) → kernel trace (read fd n) ≡ ok 0 [])
    → 0 < len
    → len < ulong_mod
    → (t : Machine) × (read_loop kernel rounds fd buf len m ≡ hung t)
read_loop-end_of_file kernel zero fd len buf m ends h small =
    (m, unfold read_loop in ground (arith, lt→ltb 0 len))
read_loop-end_of_file kernel (suc rounds) fd len buf m ends h small =
    let (t, e) =
      read_loop-end_of_file kernel rounds fd ((len + ulong_mod - 0) % ulong_mod) (overwrite buf [])
        (log (read fd len) 0 [] m) ends (omega arith) (omega arith) in
    (t, read_loop-step kernel rounds fd len 0 buf [] m h (ends m.trace len) ∙ e)

-- A region that comes in two reads is not put together: the second read overwrites the first, so
-- the buffer holds the bytes of the second, and behind them what the first left there.
pub read_loop-two_reads :
    (kernel : Kernel) (rounds fd len k : ℕ) (buf first second : Bytes) (m : Machine)
    → 0 < k
    → k < len
    → len < ulong_mod
    → kernel m.trace (read fd len) ≡ ok k first
    → kernel (log (read fd len) k first m).trace (read fd (len - k)) ≡ ok (len - k) second
    → (t : Machine) × (read_loop kernel (suc (suc rounds)) fd buf len m
        ≡ done (second ++ drop (length second) (first ++ drop (length first) buf)) t)
unfolding overwrite
read_loop-two_reads kernel rounds fd len k buf first second m pos less small e1 e2 =
    let rest : (len + ulong_mod - k) % ulong_mod ≡ len - k = omega arith in
    let none_left : (len - k + ulong_mod - (len - k)) % ulong_mod ≡ 0 = omega arith in
    let m1 = log (read fd len) k first m in
    let m2 = log (read fd (len - k)) (len - k) second m1 in
    (
      m2,
      read_loop-step kernel (suc rounds) fd len k buf first m (omega arith) e1
          ∙ rw
              (
                rest,
                read_loop-step kernel rounds fd (len - k) (len - k) (overwrite buf first) second m1
                    (omega arith) e2,
                none_left,
              )
              (read_loop-zero kernel rounds fd (overwrite (overwrite buf first) second) m2),
    )

-- ===== src/Machine/Held/Neutral.antt =====
-- Calls that change nothing about what is held, as a frame. The reads of a directory are not among them,
-- since those count the entries.
use cominit.Base.{Bool, true, false, ◌&&◌, List, [], ◌∷◌, ◌≡◌, refl, ◌∙◌}
use cominit.Base.Run.{Run, Outcome, done, failed, hung, fault, state}
use cominit.Machine.{
  Machine, Trace, Call, Answer, open_file, close, malloc, free, opendir, closedir, readdir, pk_init,
  pk_free, entropy_init, entropy_free, ctr_drbg_init, ctr_drbg_free, mmap, munmap, pipe, calloc,
  free_secret, esys_unseal, esys_create_primary, esys_start_auth_session, esys_load,
  esys_flush_context,
}
use cominit.Machine.Frame.{Frame, Respects, Quiet, is_quiet}
use cominit.Machine.Held.{Resource, held}
use cominit.Machine.Held.Balance.{Leaves, Releases}

abbrev pub is_neutral : Call → Bool
is_neutral (open_file path) = false
is_neutral (close fd) = false
is_neutral pipe = false
is_neutral (opendir path) = false
is_neutral closedir = false
is_neutral readdir = false
is_neutral (malloc size) = false
is_neutral free = false
is_neutral (mmap fd size) = false
is_neutral munmap = false
is_neutral (calloc size) = false
is_neutral (free_secret buf) = false
is_neutral pk_init = false
is_neutral pk_free = false
is_neutral entropy_init = false
is_neutral entropy_free = false
is_neutral ctr_drbg_init = false
is_neutral ctr_drbg_free = false
is_neutral (esys_unseal blob session) = false
is_neutral esys_create_primary = false
is_neutral (esys_start_auth_session trial) = false
is_neutral (esys_load primary private_part public_part) = false
is_neutral (esys_flush_context handle) = false
is_neutral _ = true

-- A frame that allows the quiet ones among them.
abbrev pub Simple : Frame → Type 0
Simple frame = (c : Call) → is_neutral c && is_quiet c ≡ true → frame.allows c ≡ true

pub Quiet-Simple : (frame : Frame) → Quiet frame → Simple frame
Quiet-Simple frame quiet c h = quiet c (go (is_neutral c) (is_quiet c) h)
  where
    go : (a b : Bool) → a && b ≡ true → b ≡ true
    go true b h = h
    go false b h = cc

pub neutral-held :
    (c : Call) (a : Answer) (t : Trace) → is_neutral c ≡ true → held ((c, a) ∷ t) ≡ held t
unfolding held
neutral-held (open_file path) a t h = cc
neutral-held (close fd) a t h = cc
neutral-held pipe a t h = cc
neutral-held (opendir path) a t h = cc
neutral-held closedir a t h = cc
neutral-held readdir a t h = cc
neutral-held (malloc size) a t h = cc
neutral-held free a t h = cc
neutral-held (mmap fd size) a t h = cc
neutral-held munmap a t h = cc
neutral-held (calloc size) a t h = cc
neutral-held (free_secret buf) a t h = cc
neutral-held pk_init a t h = cc
neutral-held pk_free a t h = cc
neutral-held entropy_init a t h = cc
neutral-held entropy_free a t h = cc
neutral-held ctr_drbg_init a t h = cc
neutral-held ctr_drbg_free a t h = cc
neutral-held (esys_unseal blob session) a t h = cc
neutral-held esys_create_primary a t h = cc
neutral-held (esys_start_auth_session trial) a t h = cc
neutral-held (esys_load primary private_part public_part) a t h = cc
neutral-held (esys_flush_context handle) a t h = cc
neutral-held _ a t h = refl

-- What is held stays as it is.
abbrev pub neutral : Frame
neutral = record {
  rel = λ m t. held t.trace ≡ held m.trace;
  same = λ m. refl;
  through = λ l m n h k. k ∙ h;
  allows = is_neutral;
  called = λ c a m h. neutral-held c a m.trace h;
}

pub neutral-Simple : Simple neutral
neutral-Simple c h = go (is_neutral c) (is_quiet c) h
  where
    go : (a b : Bool) → a && b ≡ true → a ≡ true
    go true b h = refl
    go false b h = cc

pub neutral-Releases : {A : Type 0} {f : Run Machine A} → Respects neutral f → Releases [] f
neutral-Releases {A} {f} k = record { at = λ m h e. go (f m) (k.at m ∙ e) }
  where
    go : {h : List Resource} (o : Outcome Machine A) → held (state o).trace ≡ h → Leaves h o
    go (done a t) e = e
    go (failed t) e = e
    go (hung t) e = tt
    go (fault t) e = tt

-- The structure of the metadata has no part in it.
pub neutral-meta : (m t : Machine) → t.trace ≡ m.trace → neutral.rel m t
neutral-meta m t e = rw e refl

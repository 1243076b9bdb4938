-- ===== src/Meta/Load/Errors.antt =====
-- On the descriptor in cominitLoadVerifyMetadata, and on partitions that are too small.
use cominit.Base.{
  ℕ, ◌+◌, ◌-◌, ◌%◌, ◌<◌, ◌^◌, ◌∷◌, ◌≡◌, refl, arith, Bytes, ltb, false, ltb→lt, Bool-cases, inl,
  inr,
}
use cominit.Base.Run.{Outcome, done, failed, hung, fault, after, ◌>>◌, pure, recovered}
use cominit.Machine.{Machine, Kernel, Answer, Trace, ok, open_file, get_size, close, close_fd, log}
use cominit.Meta.Load.{bin_readall, metadata_offset, read_region, load_verify_metadata}

-- A function that has returned has closed the descriptor last.
abbrev pub Closes : {A : Type 0} → ℕ → Outcome Machine A → Type 0
Closes fd (done a t) = (r : Answer) × (rest : Trace) × (t.trace ≡ (close fd, r) ∷ rest)
Closes fd (failed t) = (r : Answer) × (rest : Trace) × (t.trace ≡ (close fd, r) ∷ rest)
Closes fd (hung t) = Unit
Closes fd (fault t) = Unit

closed_after :
    (kernel : Kernel) (fd : ℕ) (o : Outcome Machine Bytes)
    → Closes fd (after (recovered (close_fd kernel fd) o) (λ buf. close_fd kernel fd >> pure buf))
closed_after kernel fd (done a t) = (kernel t.trace (close fd), t.trace, refl)
closed_after kernel fd (failed t) = (kernel t.trace (close fd), t.trace, refl)
closed_after kernel fd (hung t) = tt
closed_after kernel fd (fault t) = tt

-- Once the partition is open, reading its metadata region closes it as the last thing that it
-- does, whether it succeeds or fails at any of its steps.
pub read_region-Closes :
    (kernel : Kernel) (rounds fd : ℕ) (bytes : Bytes) (m : Machine)
    → kernel m.trace (open_file m.meta.device_path) ≡ ok fd bytes
    → Closes fd (read_region kernel rounds m)
unfolding read_region
read_region-Closes kernel rounds fd bytes m e = rw (e, Closes) (closed_after kernel fd _)

metadata_offset-small : (size : ℕ) → size < 4096 → ltb (metadata_offset size) (2 ^ 63) ≡ false
unfolding metadata_offset
metadata_offset-small size h = elim (Bool-cases (ltb ((size + 2 ^ 64 - 4096) % 2 ^ 64) (2 ^ 63))) [
  | inl e ↦ absurd (omega (arith, ltb→lt ((size + 2 ^ 64 - 4096) % 2 ^ 64) (2 ^ 63) e))
  | inr e ↦ e
]

-- On a partition of less than 4096 bytes the load fails, though the offset of the region wraps
-- around in 64 bits: nothing is read, the structure stays as it was, and the partition is closed.
pub load_verify_metadata-small :
    (kernel : Kernel) (rounds fd size : ℕ) (opened sized keyfile : Bytes) (m : Machine)
    → kernel m.trace (open_file m.meta.device_path) ≡ ok fd opened
    → kernel (log (open_file m.meta.device_path) fd opened m).trace (get_size fd) ≡ ok size sized
    → size < 4096
    → (r : Answer) × (load_verify_metadata kernel rounds keyfile m
        ≡ failed (record m {
          trace =
              (close fd, r)
              ∷ (get_size fd, ok size sized)
              ∷ (open_file m.meta.device_path, ok fd opened)
              ∷ m.trace;
        }))
unfolding load_verify_metadata read_region bin_readall
load_verify_metadata-small kernel rounds fd size opened sized keyfile m e1 e2 h = (
  kernel ((get_size fd, ok size sized) ∷ (open_file m.meta.device_path, ok fd opened) ∷ m.trace)
      (close fd),
  rw (e1, e2, metadata_offset-small size h),
)

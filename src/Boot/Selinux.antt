-- ===== src/Boot/Selinux.antt =====
-- cominitLoadSelinuxPolicy and cominitSetSelinuxMode of src/cominit.c.
use cominit.Base.{ℕ, Bytes, codes}
use cominit.Base.Run.{Run, ◌>>=◌, on_fail}
use cominit.Libc.Printf.{decimal, snprintf}
use cominit.Machine.{
  Machine, Kernel, Answer, open_file, fstat, mmap, munmap, write, extern, call, call_out, close_fd,
}

module _ (kernel : Kernel) where
  -- A step with a cleanup that runs whether it fails or not.
  abbrev with_cleanup : {A : Type 0} → Run Machine Answer → Run Machine A → Run Machine Answer
  with_cleanup cleanup m = on_fail cleanup m >>= λ _. cleanup

  unfoldable pub write_policy : Bytes → Run Machine Answer
  write_policy data_bytes = do
    lfd ← call kernel (open_file (codes "/sys/fs/selinux/load"))
    with_cleanup (close_fd kernel lfd) (call kernel (write lfd data_bytes))

  unfoldable pub load_selinux_policy : Bytes → Run Machine Answer
  unfolding write_policy
  load_selinux_policy policy_path = do
    fd ← call kernel (open_file policy_path)
    with_cleanup (close_fd kernel fd) (do
      size ← call kernel (fstat fd)
      (_, data_bytes) ← call_out kernel (mmap fd size)
      with_cleanup (extern kernel munmap) (write_policy data_bytes))

  unfoldable pub set_selinux_mode : ℕ → Run Machine Answer
  set_selinux_mode value = do
    fd ← call kernel (open_file (codes "/sys/fs/selinux/enforce"))
    with_cleanup (close_fd kernel fd) (call kernel (write fd (snprintf 20 (decimal value))))

-- ===== src/Fs/Errno.antt =====
-- The error numbers that src/syscall.c makes of the codes of src/sched_fd.c and src/fs.c.
use octans.Prelude.{
  ◌↔◌, ◌≢◌, ℕ, ◌<◌, ◌≡◌, refl, ap, ℤ, pos, negsuc, none, some, Bool, true, false, ◌==◌,
  if◌then◌else◌, arith, inl, inr, ◌⊎◌, Option-cases, err, ◌+◌,
}
use octans.Sched.Fd.State.{
  FdError, ebadf, einval, espipe, eagain, epipe, System, Slot, State, max_fds, Reply, Ofile, emfile,
  accmode, nonblock,
}
use octans.Sched.Fd.Table.{fdent_at, sched_slot_find_free_fd}
use octans.Sched.Fd.Ops.{
  open_free, open_special_locked, sched_fd_open_special, special_kind, fresh_ofile, with_slot,
}
use octans.Sched.Fd.Refs.Open.{find_free_fd-some}
use octans.Fs.Base.{Backend, World, FilePath, dev_null, dev_zero, dev_tty, fd_error_code}
use octans.Fs.Ops.{fs_open}

-- ERRNO_*.
abbrev pub errno_enoent : ℕ
errno_enoent = 2

abbrev pub errno_eio : ℕ
errno_eio = 5

abbrev pub errno_ebadf : ℕ
errno_ebadf = 9

abbrev pub errno_eagain : ℕ
errno_eagain = 11

abbrev pub errno_ebusy : ℕ
errno_ebusy = 16

abbrev pub errno_eexist : ℕ
errno_eexist = 17

abbrev pub errno_enotdir : ℕ
errno_enotdir = 20

abbrev pub errno_eisdir : ℕ
errno_eisdir = 21

abbrev pub errno_emfile : ℕ
errno_emfile = 24

abbrev pub errno_enospc : ℕ
errno_enospc = 28

abbrev pub errno_espipe : ℕ
errno_espipe = 29

abbrev pub errno_erofs : ℕ
errno_erofs = 30

abbrev pub errno_epipe : ℕ
errno_epipe = 32

abbrev pub errno_einval : ℕ
errno_einval = 22

abbrev pub errno_enotempty : ℕ
errno_enotempty = 39

abbrev pub errno_enosys : ℕ
errno_enosys = 38

-- rc == -(n + 1)
abbrev pub is_code : ℤ → ℕ → Bool
is_code (pos m) n = false
is_code (negsuc m) n = m == n

unfoldable pub errno_from_sched_fd_rc : ℤ → ℕ
errno_from_sched_fd_rc rc =
    if is_code rc 0
    then errno_ebadf
    else if is_code rc 1
    then errno_emfile
    else if is_code rc 2
    then errno_einval
    else if is_code rc 3
    then errno_espipe
    else if is_code rc 4
    then errno_eagain
    else if is_code rc 5
    then errno_epipe
    else errno_einval

-- FS_ERR_IO and BLK_ERR_IO are both -5.
unfoldable pub errno_from_fs_rc : ℤ → ℕ
unfolding errno_from_sched_fd_rc
errno_from_fs_rc rc =
    if is_code rc 8
    then errno_ebadf
    else if is_code rc 1
    then errno_enoent
    else if is_code rc 21
    then errno_einval
    else if is_code rc 15
    then errno_ebusy
    else if is_code rc 16
    then errno_eexist
    else if is_code rc 27
    then errno_enospc
    else if is_code rc 37
    then errno_enosys
    else if is_code rc 38
    then errno_enotempty
    else if is_code rc 29
    then errno_erofs
    else if is_code rc 19
    then errno_enotdir
    else if is_code rc 20
    then errno_eisdir
    else if is_code rc 4
    then errno_eio
    else errno_from_sched_fd_rc rc

-- The three devices that the switch opens.
abbrev pub IsDevice : FilePath → Type 0
IsDevice path = (path ≡ dev_null) ⊎ (path ≡ dev_zero) ⊎ (path ≡ dev_tty)

-- All descriptors of the current slot are used.
pub record IsFull (s : System) (slot : Slot) : Type 0 where
  pub current : s.current ≡ some slot
  pub full : (i : ℕ) → i < max_fds → (fdent_at slot i).used ≡ true

no_free_fd :
    (slot : Slot)
    → ((i : ℕ) → i < max_fds → (fdent_at slot i).used ≡ true)
    → sched_slot_find_free_fd slot 0 ≡ none
no_free_fd slot full = elim (Option-cases (sched_slot_find_free_fd slot 0)) [
  | inl e ↦ e
  | inr (k, e) ↦
      let (free, _, high, _) = find_free_fd-some slot 0 k e in absurd (ground (arith, full k high))
]

open_free-full :
    (f : Ofile → Ofile) (st : State)
    → ((i : ℕ) → i < max_fds → (fdent_at st.slot i).used ≡ true)
    → open_free f st ≡ (st, err emfile)
unfolding open_free
open_free-full f st full = rw (no_free_fd st.slot full, open_free) refl

full_special :
    (s : System) (slot : Slot) (t kind flags : ℕ)
    → IsFull s slot
    → special_kind t ≡ some kind
    → (sched_fd_open_special t flags s).1 ≡ err emfile
unfolding sched_fd_open_special open_special_locked
full_special s slot t kind flags v e =
    rw (v.current, with_slot, open_special_locked, e)
      (ap (λ (r : State × Reply). r.1)
        (open_free-full (fresh_ofile kind (accmode flags + nonblock flags) 0 0 0 false)
          (record { slot = slot; shared = s.shared }) v.full))

-- Opening a device while all descriptors of the caller are used is answered with the code of "too
-- many open files" of the descriptor layer, which the system call takes for "no such file": the
-- caller is told ENOENT, although the same code stands for EMFILE where the descriptor layer is
-- called directly.
pub open_full_errno :
    {D : Type 0} (b : Backend D) (path : FilePath) (flags : ℕ) (w : World D) (slot : Slot)
    → IsDevice path
    → IsFull w.fds slot
    → let rc = (fs_open b (some path) flags w).1 in
      (errno_from_fs_rc rc ≡ errno_enoent) × (errno_from_sched_fd_rc rc ≡ errno_emfile)
unfolding fs_open errno_from_fs_rc
open_full_errno b path flags w slot (inl e) v =
    rw (e, full_special w.fds slot 1 4 (accmode flags + nonblock flags) v refl) (refl, refl)
open_full_errno b path flags w slot (inr (inl e)) v =
    rw (e, full_special w.fds slot 2 5 (accmode flags + nonblock flags) v refl) (refl, refl)
open_full_errno b path flags w slot (inr (inr e)) v =
    rw (e, full_special w.fds slot 3 6 (accmode flags + nonblock flags) v refl) (refl, refl)

-- A code of the descriptor layer that comes back through the switch is given the same error number
-- as where the descriptor layer is called directly, exactly when it is not one of "too many open
-- files", which -2 makes ENOENT, and "try again", which -5 makes EIO.
pub errno_agrees_exact :
    (e : FdError)
    → (errno_from_fs_rc (fd_error_code e) ≡ errno_from_sched_fd_rc (fd_error_code e))
      ↔ ((e ≢ emfile) × (e ≢ eagain))
unfolding errno_from_fs_rc
errno_agrees_exact ebadf = (λ _. (λ q. ground arith, λ q. ground arith), λ _. refl)
errno_agrees_exact emfile = (λ q. absurd (ground arith), λ q. absurd (q.0 refl))
errno_agrees_exact einval = (λ _. (λ q. ground arith, λ q. ground arith), λ _. refl)
errno_agrees_exact espipe = (λ _. (λ q. ground arith, λ q. ground arith), λ _. refl)
errno_agrees_exact eagain = (λ q. absurd (ground arith), λ q. absurd (q.1 refl))
errno_agrees_exact epipe = (λ _. (λ q. ground arith, λ q. ground arith), λ _. refl)

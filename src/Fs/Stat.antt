-- ===== src/Fs/Stat.antt =====
-- What `fs_fstat` tells of a descriptor that `fs_open` has just made, against `fs_stat`.
use octans.Prelude.{
  ℕ, ◌≡◌, refl, sym, ap, ◌==◌, subst, ◌∙◌, ℤ, pos, some, true, false, arith, inl, inr, Option-cases,
  ok, err, get_or-set_self, ◌+◌,
}
use octans.Sched.Fd.State.{
  System, Slot, State, Reply, Ofile, type_regular, accmode, nonblock, no_ofile, no_fdent, ebadf,
  emfile, einval, espipe, eagain, epipe,
}
use octans.Sched.Fd.Table.{
  ofile_at, fdent_at, sched_slot_ofile_by_fd, sched_slot_find_free_fd, sched_slot_find_free_ofile,
}
use octans.Sched.Fd.Ops.{
  open_free, open_special_locked, sched_fd_open_special, special_kind, fresh_ofile, with_slot,
  install_at,
}
use octans.Sched.Fd.File.{sched_fd_get_type, on_ofile}
use octans.Sched.Fd.Refs.Inv.{IsCounted}
use octans.Sched.Fd.Refs.Loops.{by_fd-used}
use octans.Sched.Fd.Refs.Open.{find_free_fd-some, find_free_ofile-some, install_at-IsCounted}
use octans.Fs.Base.{Backend, World, FilePath, reply_code}
use octans.Fs.Ops.{fs_open, fs_stat, fs_fstat, fstat_of_type, fs_stat_fill_dev, fd_word}
use octans.Fs.Errno.{IsDevice}

-- A fresh open file is found behind the descriptor that the call gives back.
open_free-found :
    (f : Ofile → Ofile) (st : State) (n : ℕ)
    → IsCounted st.slot
    → ((o : Ofile) → (f o).refs ≡ 1)
    → ((o : Ofile) → (f o).used ≡ true)
    → (open_free f st).1 ≡ ok n
    → let t = (open_free f st).0.slot in
      (o : ℕ) × (sched_slot_ofile_by_fd t (pos n) ≡ some (n, o))
      × (ofile_at t o ≡ f (ofile_at st.slot o))
unfolding open_free install_at
open_free-found f st n v one used e = elim (Option-cases (sched_slot_find_free_fd st.slot 0)) [
  | inl no_fd ↦ absurd (ground (arith, (rw (no_fd, open_free) at e)))
  | inr (fd, some_fd) ↦ elim (Option-cases (sched_slot_find_free_ofile st.slot)) [
    | inl no_of ↦ absurd (ground (arith, (rw (some_fd, no_of, open_free) at e)))
    | inr (o, some_of) ↦
        let (unused, ho) = find_free_ofile-some st.slot o some_of in
        let (free, _, hfd, _) = find_free_fd-some st.slot 0 fd some_fd in
        let t = install_at fd o f st.slot in
        let valid = install_at-IsCounted st.slot fd o f v hfd ho free unused (one _) (used _) in
        let entry : fdent_at t fd ≡ record { used = true; ofile_idx = o; fd_flags = 0 } =
          get_or-set_self st.slot.fdtab fd _ no_fdent (omega (arith, v.fds_len)) in
        let file : ofile_at t o ≡ f (ofile_at st.slot o) =
          get_or-set_self st.slot.ofiles o _ no_ofile (omega (arith, v.ofiles_len)) in
        let same : fd ≡ n = ground (arith, (rw (some_fd, some_of, open_free) at e)) in
        rw (some_fd, some_of, open_free)
          (
            o,
            subst (λ k. sched_slot_ofile_by_fd t (pos k) ≡ some (k, o)) same
                (by_fd-used t fd valid hfd (ap (λ d. d.used) entry)
                  ∙ ap (λ d. some (fd, d.ofile_idx)) entry),
            file,
          )
  ]
]

special_locked :
    (t kind status : ℕ) (st : State)
    → special_kind t ≡ some kind
    → open_special_locked t status st
      ≡ open_free (fresh_ofile kind (accmode status + nonblock status) 0 0 0 false) st
unfolding open_special_locked
special_locked t kind status st known = rw (known, open_special_locked) refl

-- The type of the descriptor that `sched_fd_open_special` gives back.
special_type :
    (s : System) (slot : Slot) (t kind status n : ℕ)
    → s.current ≡ some slot
    → IsCounted slot
    → special_kind t ≡ some kind
    → (sched_fd_open_special t status s).1 ≡ ok n
    → (sched_fd_get_type (pos n) true (sched_fd_open_special t status s).0).1 ≡ ok kind
unfolding sched_fd_open_special sched_fd_get_type
special_type s slot t kind status n current v known opened =
    let f = fresh_ofile kind (accmode status + nonblock status) 0 0 0 false in
    let st : State = record { slot = slot; shared = s.shared } in
    let locked = special_locked t kind status st known in
    let reply : (open_free f st).1 ≡ ok n = rw (current, with_slot, locked) at opened in
    let (o, found, file) = open_free-found f st n v (λ _. refl) (λ _. refl) reply in
    rw (current, with_slot, locked, found, on_ofile, locked) (ap (λ (g : Ofile). ok g.kind) file)

code_ok : (r : Reply) (n : ℕ) → reply_code r ≡ pos n → r ≡ ok n
code_ok (ok k) n e = ap ok (ground arith)
code_ok (err ebadf) n e = absurd (ground arith)
code_ok (err emfile) n e = absurd (ground arith)
code_ok (err einval) n e = absurd (ground arith)
code_ok (err espipe) n e = absurd (ground arith)
code_ok (err eagain) n e = absurd (ground arith)
code_ok (err epipe) n e = absurd (ground arith)

-- A descriptor of a device's type is told as that device.
fstat_char :
    {D : Type 0} (fd : ℤ) (kind : ℕ) (w : World D)
    → (sched_fd_get_type fd true w.fds).1 ≡ ok kind
    → (kind == type_regular) ≡ false
    → fstat_of_type kind (fd_word fd) ≡ ok (fs_stat_fill_dev kind)
    → (fs_fstat fd true w).1 ≡ ok (fs_stat_fill_dev kind)
unfolding fs_fstat
fstat_char fd kind w known other told = rw (known, other, told) refl

-- In a slot whose counts are right, when opening one of the three devices answers a descriptor,
-- `fs_fstat` of that descriptor tells what `fs_stat` tells of the device's path.
pub fstat_of_open :
    {D : Type 0} (b : Backend D) (path : FilePath) (flags n : ℕ) (w : World D) (slot : Slot)
    → IsDevice path
    → w.fds.current ≡ some slot
    → IsCounted slot
    → (fs_open b (some path) flags w).1 ≡ pos n
    → (fs_fstat (pos n) true (fs_open b (some path) flags w).0).1 ≡ (fs_stat b (some path) true w).1
unfolding fs_open fs_stat
fstat_of_open {D = D} b path flags n w slot device current v = elim device [
  | inl e ↦ subst Told (sym e) (told_special 1 4 refl refl refl)
  | inr (inl e) ↦ subst Told (sym e) (told_special 2 5 refl refl refl)
  | inr (inr e) ↦ subst Told (sym e) (told_special 3 6 refl refl refl)
]
  where
    Told : FilePath → Type 0
    Told p =
        (fs_open b (some p) flags w).1 ≡ pos n
        → (fs_fstat (pos n) true (fs_open b (some p) flags w).0).1 ≡ (fs_stat b (some p) true w).1

    told_special :
        (t kind : ℕ)
        → special_kind t ≡ some kind
        → (kind == type_regular) ≡ false
        → fstat_of_type kind (fd_word (pos n)) ≡ ok (fs_stat_fill_dev kind)
        → let (s, reply) = sched_fd_open_special t (accmode flags + nonblock flags) w.fds in
          reply_code reply ≡ pos n
          → (fs_fstat (pos n) true (record w { fds = s })).1 ≡ ok (fs_stat_fill_dev kind)
    told_special t kind known other told opened =
        let status = accmode flags + nonblock flags in
        let (s, reply) = sched_fd_open_special t status w.fds in
        fstat_char (pos n) kind (record w { fds = s })
          (special_type w.fds slot t kind status n current v known (code_ok reply n opened)) other
          told

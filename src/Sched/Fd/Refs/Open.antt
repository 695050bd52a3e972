-- ===== src/Sched/Fd/Refs/Open.antt =====
-- Opening descriptors keeps the counts: the searches for free entries, and what is installed there.
use octans.Prelude.{
  ℕ, ◌+◌, ◌-◌, ◌<◌, ◌≤◌, ◌≡◌, refl, ◌≢◌, true, false, not, ◌==◌, arith, inl, inr, Bool-cases, none,
  some, Option-cases, get_or-set, find_from-some, find_from-none, find_pair-some, get_or-set_ne,
}
use octans.Sched.Fd.State.{
  Ofile, Slot, State, max_fds, no_fdent, no_ofile, type_pipe_read, type_pipe_write, o_rdonly,
  o_wronly,
}
use octans.Sched.Fd.Pipe.{sched_pipe_init_once, sched_pipe_alloc_locked}
use octans.Sched.Fd.Table.{
  ofile_at, fdent_at, put_ofile, sched_slot_find_free_fd, sched_slot_find_free_ofile,
}
use octans.Sched.Fd.Ops.{
  install_at, open_free, fresh_ofile, install_pipe, find_two_fds, find_two_ofiles, pipe_locked,
}
use octans.Sched.Fd.Refs.Inv.{IsCounted, write_both}

-- The free descriptor found is the lowest from `start` on.
pub find_free_fd-some :
    (s : Slot) (start k : ℕ)
    → sched_slot_find_free_fd s start ≡ some k
    → ((fdent_at s k).used ≡ false)
      × (start ≤ k)
      × (k < max_fds)
      × ((j : ℕ) → start ≤ j → j < k → (fdent_at s j).used ≡ true)
unfolding sched_slot_find_free_fd
find_free_fd-some s start k e =
    let free =
      find_from-some (λ i. not (fdent_at s i).used) (max_fds - start) start k (ground arith) in
    let inside : start < max_fds = ground arith in
    (ground (arith, free.0), free.1, omega (arith, free.2), λ j a b. ground (arith, free.3 j a b))

-- With no free descriptor from `start` on, all of them are used.
pub find_free_fd-none :
    (s : Slot) (start j : ℕ)
    → sched_slot_find_free_fd s start ≡ none
    → start ≤ j
    → j < max_fds
    → (fdent_at s j).used ≡ true
unfolding sched_slot_find_free_fd
find_free_fd-none s start j e a b =
    ground (arith, find_from-none (λ i. not (fdent_at s i).used) (max_fds - start) start j)

pub find_free_ofile-some :
    (s : Slot) (k : ℕ)
    → sched_slot_find_free_ofile s ≡ some k
    → ((ofile_at s k).used ≡ false) × (k < max_fds)
unfolding sched_slot_find_free_ofile
find_free_ofile-some s k e =
    let free = find_from-some (λ i. not (ofile_at s i).used) max_fds 0 k e in
    (ground (arith, free.0), omega (arith, free.2))

-- A fresh open file, with one reference, behind a free descriptor.
pub install_at-IsCounted :
    (s : Slot) (fd o : ℕ) (f : Ofile → Ofile)
    → IsCounted s
    → fd < max_fds
    → o < max_fds
    → (fdent_at s fd).used ≡ false
    → (ofile_at s o).used ≡ false
    → (f (ofile_at s o)).refs ≡ 1
    → (f (ofile_at s o)).used ≡ true
    → IsCounted (install_at fd o f s)
unfolding install_at
install_at-IsCounted s fd o f v hfd ho free unused one used =
    write_both s fd o _ (f (ofile_at s o)) v hfd ho (λ _. refl) (λ h. absurd (ground arith))
      (ground (arith, v.live o)) (ground arith)

pub open_free-IsCounted :
    (f : Ofile → Ofile) (st : State)
    → IsCounted st.slot
    → ((o : Ofile) → (f o).refs ≡ 1)
    → ((o : Ofile) → (f o).used ≡ true)
    → IsCounted (open_free f st).0.slot
unfolding open_free
open_free-IsCounted f st v one used = elim (Option-cases (sched_slot_find_free_fd st.slot 0)) [
  | inl e ↦ rw (e, open_free) v
  | inr (fd, e) ↦ elim (Option-cases (sched_slot_find_free_ofile st.slot)) [
    | inl e' ↦ rw (e, e', open_free) v
    | inr (o, e') ↦
        let (unused, ho) = find_free_ofile-some st.slot o e' in
        let (free, _, hfd, _) = find_free_fd-some st.slot 0 fd e in
        rw (e, e', open_free)
          (install_at-IsCounted st.slot fd o f v hfd ho free unused (one _) (used _))
  ]
]

-- The two descriptors of a pipe are free and differ.
pub find_two_fds-some :
    (s : Slot) (r w : ℕ)
    → find_two_fds s ≡ some (r, w)
    → (r < w) × (w < max_fds) × ((fdent_at s r).used ≡ false) × ((fdent_at s w).used ≡ false)
unfolding find_two_fds
find_two_fds-some s r w e =
    let (er, ew) =
      find_pair-some (sched_slot_find_free_fd s 0) (λ k. sched_slot_find_free_fd s (k + 1)) r w e in
    ground (arith, find_free_fd-some s 0 r er, find_free_fd-some s (r + 1) w ew)

-- So are the two open files.
find_two_ofiles_parts :
    (s : Slot) (r w : ℕ)
    → find_two_ofiles s ≡ some (r, w)
    → (sched_slot_find_free_ofile s ≡ some r)
      × (sched_slot_find_free_ofile (put_ofile r (λ o. record o { used = true }) s) ≡ some w)
unfolding find_two_ofiles
find_two_ofiles_parts s r w e = find_pair-some _ _ r w e

pub find_two_ofiles-some :
    (s : Slot) (r w : ℕ)
    → IsCounted s
    → find_two_ofiles s ≡ some (r, w)
    → (r ≢ w)
      × (r < max_fds)
      × (w < max_fds)
      × ((ofile_at s r).used ≡ false)
      × ((ofile_at s w).used ≡ false)
find_two_ofiles-some s r w v e =
    let (er, ew) = find_two_ofiles_parts s r w e in
    let (fr, hr) = find_free_ofile-some s r er in
    let (fw, hw) = find_free_ofile-some _ w ew in
    let at_w =
      get_or-set s.ofiles r w (record (ofile_at s r) { used = true }) no_ofile
        (omega (arith, v.ofiles_len)) in
    let differ : (r == w) ≡ false = elim (Bool-cases (r == w)) [
      | inl same ↦ cc (rw (at_w, same) at fw)
      | inr other ↦ other
    ] in
    (ground arith, hr, hw, fr, rw (at_w, differ) at fw)

pub install_pipe-IsCounted :
    (s : Slot) (rfd wfd rof wof id : ℕ)
    → IsCounted s
    → find_two_fds s ≡ some (rfd, wfd)
    → find_two_ofiles s ≡ some (rof, wof)
    → IsCounted (install_pipe rfd wfd rof wof id s)
unfolding install_pipe install_at
install_pipe-IsCounted s rfd wfd rof wof id v e e' =
    let (lt, hw, free, free') = find_two_fds-some s rfd wfd e in
    let (ne, hr, hw', unused, unused') = find_two_ofiles-some s rof wof v e' in
    let ends = fresh_ofile type_pipe_read o_rdonly id 0 0 false in
    install_at-IsCounted (install_at rfd rof ends s) wfd wof
      (fresh_ofile type_pipe_write o_wronly id 0 0 false)
      (install_at-IsCounted s rfd rof ends v (omega arith) hr free unused refl refl) hw hw'
      (rw (get_or-set_ne s.fdtab rfd wfd _ no_fdent (omega arith)) free')
      (rw (get_or-set_ne s.ofiles rof wof _ no_ofile ne) unused') refl refl

pub pipe_locked-IsCounted : (st : State) → IsCounted st.slot → IsCounted (pipe_locked st).0.slot
unfolding pipe_locked
pipe_locked-IsCounted st v = elim (Option-cases (find_two_fds st.slot)) [
  | inl e ↦ rw (e, pipe_locked) v
  | inr (fds, e) ↦ elim (Option-cases (find_two_ofiles st.slot)) [
    | inl e' ↦ rw (e, e', pipe_locked) v
    | inr (ofs, e') ↦
        elim (Option-cases (sched_pipe_alloc_locked (sched_pipe_init_once st.shared)).1) [
          | inl e'' ↦ rw (e, e', e'', pipe_locked) v
          | inr (id, e'') ↦
              rw (e, e', e'', pipe_locked)
                (install_pipe-IsCounted st.slot fds.0 fds.1 ofs.0 ofs.1 id v e e')
        ]
  ]
]

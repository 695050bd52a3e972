-- ===== src/Sched/Fd/Refs/Share.antt =====
-- Closing and sharing one descriptor keep the counts.
use octans.Prelude.{
  ℕ, ◌<◌, ◌≤◌, ◌≡◌, ◌≢◌, true, false, tally_pos, tally-le-length, arith, inl, inr, some, pos,
  negsuc, ℤ, ok, Option-cases,
}
use octans.Sched.Fd.State.{Slot, State, max_fds, no_fdent}
use octans.Sched.Fd.Table.{
  ofile_at, fdent_at, sched_slot_ofile_by_fd, close_at, sched_slot_close_fd, ofile_drop,
}
use octans.Sched.Fd.Ops.{share_at}
use octans.Sched.Fd.Refs.Inv.{IsCounted, points, write_both}

-- A descriptor that stands on an open file.
pub record IsOn (s : Slot) (i o : ℕ) : Type 0 where
  pub fd_in : i < max_fds
  pub opened : (fdent_at s i).used ≡ true
  pub idx : (fdent_at s i).ofile_idx ≡ o
  pub ofile_in : o < max_fds

pub by_fd-IsOn :
    (s : Slot) (fd : ℤ) (i o : ℕ)
    → sched_slot_ofile_by_fd s fd ≡ some (i, o)
    → IsOn s i o × (fd ≡ pos i) × ((ofile_at s o).refs ≢ 0)
unfolding sched_slot_ofile_by_fd
by_fd-IsOn s (pos n) i o e = ground arith
by_fd-IsOn s (negsuc n) i o e = absurd (ground arith)

-- The open file under a descriptor is in use, with a count that does not wrap.
pub IsOn-refs :
    {s : Slot} (i o : ℕ)
    → IsCounted s
    → IsOn s i o
    → (0 < (ofile_at s o).refs) × ((ofile_at s o).refs ≤ max_fds) × ((ofile_at s o).used ≡ true)
IsOn-refs {s} i o v on = ground (
  arith,
  tally_pos (points o) s.fdtab i no_fdent,
  tally-le-length (points o) s.fdtab,
  v.counted o,
  v.live o,
  v.fds_len,
)

pub close_at-IsCounted :
    (st : State) (i o : ℕ) → IsCounted st.slot → IsOn st.slot i o → IsCounted (close_at st i o).slot
unfolding close_at
close_at-IsCounted st i o v on =
    write_both st.slot i o _ (ofile_drop (ofile_at st.slot o)) v on.fd_in on.ofile_in (λ h. cc)
      (λ _. on.idx) (ground (arith, IsOn-refs i o v on, on.idx, on.opened))
      (ground (arith, IsOn-refs i o v on))

pub share_at-IsCounted :
    (st : State) (i o n flags : ℕ)
    → IsCounted st.slot
    → IsOn st.slot i o
    → n < max_fds
    → (fdent_at st.slot n).used ≡ false
    → IsCounted (share_at i o n flags st).slot
unfolding share_at
share_at-IsCounted st i o n flags v on hn free =
    write_both st.slot n o _ _ v hn on.ofile_in (λ _. on.idx) (λ h. absurd (ground arith))
      (ground (arith, IsOn-refs i o v on, on.idx)) (ground (arith, IsOn-refs i o v on))

pub close_fd_found :
    (st : State) (fd : ℤ) (i o : ℕ)
    → sched_slot_ofile_by_fd st.slot fd ≡ some (i, o)
    → sched_slot_close_fd st fd ≡ (close_at st i o, ok 0)
unfolding sched_slot_close_fd
close_fd_found st fd i o e = rw (e, sched_slot_close_fd)

-- Closing any descriptor, open or not, keeps the counts.
pub close_fd-IsCounted :
    (st : State) (fd : ℤ) → IsCounted st.slot → IsCounted (sched_slot_close_fd st fd).0.slot
unfolding sched_slot_close_fd
close_fd-IsCounted st fd v = elim (Option-cases (sched_slot_ofile_by_fd st.slot fd)) [
  | inl e ↦ rw (e, sched_slot_close_fd) v
  | inr (io, e) ↦
      rw (e, sched_slot_close_fd)
        (close_at-IsCounted st io.0 io.1 v (by_fd-IsOn st.slot fd io.0 io.1 e).0)
]

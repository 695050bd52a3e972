-- ===== src/Sched/Fd/Refs/Keep.antt =====
-- Every call of src/sched_fd.c keeps the counts, and so does every sequence of calls.
use octans.Prelude.{
  ℕ, ◌<◌, ◌≡◌, refl, true, ◌==◌, arith, inl, inr, Bool-cases, ℤ, pos, negsuc, none, some, Option,
  Option-cases, get_or-set, length-set, set-get_or, leb, ◌≢◌,
}
use octans.Sched.Fd.State.{Ofile, Slot, State, System, max_fds, no_ofile}
use octans.Sched.Fd.Table.{
  ofile_at, fdent_at, put_ofile, put_fdent, sched_slot_ofile_by_fd, sched_slot_find_free_fd,
  sched_slot_close_fd, close_at,
}
use octans.Sched.Fd.Ops.{with_slot, dup_min_locked, dup2_locked, share_at}
use octans.Sched.Fd.File.{with_ofile, on_ofile}
use octans.Sched.Fd.Refs.Inv.{IsCounted, write_both}
use octans.Sched.Fd.Refs.Share.{
  IsOn, by_fd-IsOn, share_at-IsCounted, close_at-IsCounted, close_fd_found,
}
use octans.Sched.Fd.Refs.Open.{find_free_fd-some}
use octans.Sched.Fd.Refs.Loops.{fdent-close_at, by_fd-used}

-- The current slot, if there is one, is counted.
abbrev pub Counted : Option Slot → Type 0
Counted none = Unit {0}
Counted (some s) = IsCounted s

-- A call that keeps the counts of the current slot.
abbrev pub Keeps : {A : Type 0} → (System → System × A) → Type 0
Keeps f = (s : System) → Counted s.current → Counted (f s).0.current

with_slot_cases :
    {A : Type 0} (missing : A) (body : State → State × A)
    → ((st : State) → IsCounted st.slot → IsCounted (body st).0.slot)
    → (cur : Option Slot) (s : System) → s.current ≡ cur
    → Counted s.current
    → Counted (with_slot missing body s).0.current
with_slot_cases missing body keep none s e v = rw (e, with_slot) v
with_slot_cases missing body keep (some slot) s e v = rw (e, with_slot) (keep _ (rw e at v))

pub with_slot-Keeps :
    {A : Type 0} (missing : A) (body : State → State × A)
    → ((st : State) → IsCounted st.slot → IsCounted (body st).0.slot)
    → Keeps (with_slot missing body)
with_slot-Keeps missing body keep s v = with_slot_cases missing body keep s.current s refl v

pub with_ofile-Keeps :
    {A : Type 0} (missing : A) (fd : ℤ) (body : ℕ → ℕ → State → State × A)
    → ((i o : ℕ) (st : State)
        → IsCounted st.slot
        → IsOn st.slot i o
        → IsCounted (body i o st).0.slot)
    → Keeps (with_ofile missing fd body)
with_ofile-Keeps missing fd body keep = with_slot-Keeps missing (on_ofile missing fd body) λ st v.
    elim (Option-cases (sched_slot_ofile_by_fd st.slot fd)) [
      | inl e ↦ rw (e, on_ofile) v
      | inr (io, e) ↦ rw (e, on_ofile) (keep io.0 io.1 st v (by_fd-IsOn st.slot fd io.0 io.1 e).0)
    ]

-- A write to an open file that leaves `used` and the count alone.
pub put_ofile-IsCounted :
    (o : ℕ) (f : Ofile → Ofile) (s : Slot)
    → IsCounted s
    → o < max_fds
    → (f (ofile_at s o)).used ≡ (ofile_at s o).used
    → (f (ofile_at s o)).refs ≡ (ofile_at s o).refs
    → IsCounted (put_ofile o f s)
put_ofile-IsCounted o f s v ho used refs = record {
  ofiles_len = rw length-set v.ofiles_len;
  fds_len = v.fds_len;
  in_range = v.in_range;
  counted = λ k hk. ground (
    arith,
    get_or-set s.ofiles o k (f (ofile_at s o)) no_ofile (omega (arith, v.ofiles_len)),
    v.counted k hk,
  );
  live = λ k. ground (
    arith,
    get_or-set s.ofiles o k (f (ofile_at s o)) no_ofile (omega (arith, v.ofiles_len)),
    v.live k,
  );
}

-- A write of a descriptor's flags.
pub set_flags-IsCounted :
    (i o flags : ℕ) (s : Slot)
    → IsCounted s
    → IsOn s i o
    → IsCounted (put_fdent i (λ e. record e { fd_flags = flags }) s)
set_flags-IsCounted i o flags s v on = rw (← set-get_or s.ofiles o no_ofile) (
    write_both s i o _ (ofile_at s o) v on.fd_in on.ofile_in (λ _. on.idx) (λ _. on.idx) refl
      (v.live o))

pub dup_min-IsCounted :
    (oldfd minfd : ℤ) (flags : ℕ) (st : State)
    → IsCounted st.slot
    → IsCounted (dup_min_locked oldfd minfd flags st).0.slot
unfolding dup_min_locked
dup_min-IsCounted oldfd (negsuc m) flags st v = v
dup_min-IsCounted oldfd (pos m) flags st v = elim (Bool-cases (leb max_fds m)) [
  | inl far ↦ rw far v
  | inr near ↦ elim (Option-cases (sched_slot_ofile_by_fd st.slot oldfd)) [
    | inl e ↦ rw (near, e, dup_min_locked) v
    | inr (io, e) ↦ elim (Option-cases (sched_slot_find_free_fd st.slot m)) [
      | inl e' ↦ rw (near, e, e', dup_min_locked) v
      | inr (n, e') ↦
          let (free, _, hn, _) = find_free_fd-some st.slot m n e' in
          rw (near, e, e', dup_min_locked)
            (share_at-IsCounted st io.0 io.1 n _ v (by_fd-IsOn st.slot oldfd io.0 io.1 e).0 hn free)
    ]
  ]
]

-- Closing `n` leaves the descriptor `i` on its open file.
pub close_at-IsOn :
    (st : State) (i o n k : ℕ)
    → IsCounted st.slot
    → IsOn st.slot i o
    → n < max_fds
    → i ≢ n
    → IsOn (close_at st n k).slot i o
close_at-IsOn st i o n k v on hn ne =
    let same = fdent-close_at st n k i v hn in
    record {
      fd_in = on.fd_in;
      opened = ground (arith, same, on.opened);
      idx = ground (arith, same, on.idx);
      ofile_in = on.ofile_in;
    }

dup2_onto-IsCounted :
    (i o n : ℕ) (st : State)
    → IsCounted st.slot
    → IsOn st.slot i o
    → n < max_fds
    → i ≢ n
    → (fdent_at st.slot n).used ≡ true
    → IsCounted (share_at i o n 0 (sched_slot_close_fd st (pos n)).0).slot
dup2_onto-IsCounted i o n st v on hn ne u =
    let k = (fdent_at st.slot n).ofile_idx in
    rw (close_fd_found st (pos n) n k (by_fd-used st.slot n v hn u)) (
      share_at-IsCounted (close_at st n k) i o n 0
        (close_at-IsCounted st n k v
          (record { fd_in = hn; opened = u; idx = refl; ofile_in = v.in_range n u }))
        (close_at-IsOn st i o n k v on hn ne) hn (ground (arith, fdent-close_at st n k n v hn)))

pub dup2-IsCounted :
    (oldfd newfd : ℤ) (st : State)
    → IsCounted st.slot
    → IsCounted (dup2_locked oldfd newfd st).0.slot
unfolding dup2_locked
dup2-IsCounted oldfd (negsuc m) st v = v
dup2-IsCounted oldfd (pos n) st v = elim (Bool-cases (leb max_fds n)) [
  | inl far ↦ rw far v
  | inr near ↦ elim (Option-cases (sched_slot_ofile_by_fd st.slot oldfd)) [
    | inl e ↦ rw (near, e, dup2_locked) v
    | inr (io, e) ↦
        let on = (by_fd-IsOn st.slot oldfd io.0 io.1 e).0 in
        elim (Bool-cases (io.0 == n)) [
          | inl same ↦ rw (near, e, same, dup2_locked) v
          | inr other ↦ elim (Bool-cases (fdent_at st.slot n).used) [
            | inl u ↦
                rw (near, e, other, u, dup2_locked)
                  (dup2_onto-IsCounted io.0 io.1 n st v on (ground arith) (ground arith) u)
            | inr free ↦
                rw (near, e, other, free, dup2_locked)
                  (share_at-IsCounted st io.0 io.1 n 0 v on (ground arith) free)
          ]
        ]
  ]
]

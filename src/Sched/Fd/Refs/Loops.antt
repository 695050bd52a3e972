-- ===== src/Sched/Fd/Refs/Loops.antt =====
-- The loops over a whole slot: clear, the standard descriptors, close all, close-on-exec.
use octans.Prelude.{
  ℕ, ◌+◌, ◌<◌, ◌≡◌, refl, true, false, ◌==◌, if◌then◌else◌, arith, inl, inr, Bool-cases, some,
  get_or-set, get_or-set_ne, length-set, length, for_range_inv, tally_zero, get_or_beyond, pos,
}
use octans.Sched.Fd.State.{
  Slot, State, max_fds, no_fdent, no_ofile, cloexec, type_stdin, type_stdout, type_stderr, o_rdonly,
  o_wronly,
}
use octans.Sched.Fd.Table.{
  ofile_at, fdent_at, sched_fd_table_clear, sched_fd_table_init_stdio, sched_slot_close_all_fds,
  sched_fdent_reset, clear_entry, close_used, stdio_entry, sched_ofile_reset,
  sched_slot_ofile_by_fd, close_at,
}
use octans.Sched.Fd.Ops.{cloexec_locked, cloexec_round}
use octans.Sched.Fd.Refs.Inv.{IsCounted, points, write_both}
use octans.Sched.Fd.Refs.Share.{
  close_fd-IsCounted, close_at-IsCounted, close_fd_found, IsOn, IsOn-refs,
}

abbrev pub Sized : Slot → Type 0
Sized s = (length s.ofiles ≡ max_fds) × (length s.fdtab ≡ max_fds)

-- The first `k` entries of both tables are free.
pub record FreeBelow (k : ℕ) (s : Slot) : Type 0 where
  pub sized : Sized s
  pub fds_free : (i : ℕ) → i < k → (fdent_at s i).used ≡ false
  pub ofiles_free : (i : ℕ) → i < k → ((ofile_at s i).used ≡ false) × ((ofile_at s i).refs ≡ 0)

clear_entry-FreeBelow :
    (k : ℕ) (s : Slot) → k < max_fds → FreeBelow k s → FreeBelow (k + 1) (clear_entry k s)
clear_entry-FreeBelow k s hk v = record {
  sized = (rw length-set v.sized.0, rw length-set v.sized.1);
  fds_free = λ i hi. ground (
    arith,
    get_or-set s.fdtab k i (sched_fdent_reset (fdent_at s k)) no_fdent,
    v.sized.1,
    v.fds_free i,
  );
  ofiles_free = λ i hi. ground (
    arith,
    get_or-set s.ofiles k i (sched_ofile_reset (ofile_at s k)) no_ofile,
    v.sized.0,
    v.ofiles_free i,
  );
}

pub clear-FreeBelow : (s : Slot) → Sized s → FreeBelow max_fds (sched_fd_table_clear s)
unfolding sched_fd_table_clear
clear-FreeBelow s h =
    for_range_inv FreeBelow clear_entry 0 max_fds (λ k t _ hk v. clear_entry-FreeBelow k t hk v)
      max_fds s refl
      (record {
        sized = h;
        fds_free = λ i hi. absurd (omega arith);
        ofiles_free = λ i hi. absurd (omega arith);
      })

-- Nothing is open, inside the tables or beyond.
pub FreeBelow-fd : (s : Slot) (i : ℕ) → FreeBelow max_fds s → (fdent_at s i).used ≡ false
FreeBelow-fd s i v = ground (arith, get_or_beyond s.fdtab i no_fdent, v.sized.1, v.fds_free i)

pub FreeBelow-ofile :
    (s : Slot) (i : ℕ)
    → FreeBelow max_fds s
    → ((ofile_at s i).used ≡ false) × ((ofile_at s i).refs ≡ 0)
FreeBelow-ofile s i v =
    ground (arith, get_or_beyond s.ofiles i no_ofile, v.sized.0, v.ofiles_free i)

-- A slot with nothing open keeps the invariant.
pub FreeBelow-IsCounted : (s : Slot) → FreeBelow max_fds s → IsCounted s
FreeBelow-IsCounted s v = record {
  ofiles_len = v.sized.0;
  fds_len = v.sized.1;
  in_range = λ i u. absurd (ground (arith, FreeBelow-fd s i v));
  counted = λ o ho. ground (
    arith,
    FreeBelow-ofile s o v,
    tally_zero (points o) s.fdtab no_fdent (λ i _. ground (arith, FreeBelow-fd s i v)),
  );
  live = λ o. ground (arith, FreeBelow-ofile s o v);
}

-- A used descriptor is found with the open file that its entry names.
pub by_fd-used :
    (s : Slot) (i : ℕ)
    → IsCounted s
    → i < max_fds
    → (fdent_at s i).used ≡ true
    → sched_slot_ofile_by_fd s (pos i) ≡ some (i, (fdent_at s i).ofile_idx)
unfolding sched_slot_ofile_by_fd
by_fd-used s i v hi u =
    let on : IsOn s i (fdent_at s i).ofile_idx = record {
      fd_in = hi;
      opened = u;
      idx = refl;
      ofile_in = v.in_range i u;
    } in
    ground (arith, IsOn-refs i (fdent_at s i).ofile_idx v on, on.ofile_in)

pub fdent-close_at :
    (st : State) (i o j : ℕ)
    → IsCounted st.slot
    → i < max_fds
    → fdent_at (close_at st i o).slot j ≡ (if i == j then no_fdent else fdent_at st.slot j)
unfolding close_at
fdent-close_at st i o j v hi =
    get_or-set st.slot.fdtab i j no_fdent no_fdent (omega (arith, v.fds_len))

-- One round of `sched_slot_close_all_fds` frees its descriptor and keeps those before it free.
record ClosedBelow (k : ℕ) (st : State) : Type 0 where
  valid : IsCounted st.slot
  closed : (i : ℕ) → i < k → (fdent_at st.slot i).used ≡ false

close_used-ClosedBelow :
    (k : ℕ) (st : State) → k < max_fds → ClosedBelow k st → ClosedBelow (k + 1) (close_used k st)
close_used-ClosedBelow k st hk c = elim (Bool-cases (fdent_at st.slot k).used) [
  | inl u ↦
      let o = (fdent_at st.slot k).ofile_idx in
      rw (u, close_fd_found st (pos k) k o (by_fd-used st.slot k c.valid hk u))
        (record {
          valid =
              close_at-IsCounted st k o c.valid
                (record { fd_in = hk; opened = u; idx = refl; ofile_in = c.valid.in_range k u });
          closed = λ i hi. ground (arith, fdent-close_at st k o i c.valid, c.closed i);
        })
  | inr free ↦ rw free (record { valid = c.valid; closed = λ i hi. ground (arith, c.closed i) })
]

-- Closing all descriptors of a slot whose counts are right leaves nothing open in either table.
pub close_all-FreeBelow :
    (st : State) → IsCounted st.slot → FreeBelow max_fds (sched_slot_close_all_fds st).slot
unfolding sched_slot_close_all_fds
close_all-FreeBelow st v =
    let c =
      for_range_inv ClosedBelow close_used 0 max_fds (λ k t _ hk h. close_used-ClosedBelow k t hk h)
        max_fds st refl (record { valid = v; closed = λ i hi. absurd (omega arith) }) in
    let s = (sched_slot_close_all_fds st).slot in
    record {
      sized = (c.valid.ofiles_len, c.valid.fds_len);
      fds_free = c.closed;
      ofiles_free = λ o ho. ground (
        arith,
        c.valid.counted o,
        c.valid.live o,
        tally_zero (points o) s.fdtab no_fdent
            (λ i hi. ground (arith, c.closed i, c.valid.fds_len)),
      );
    }

cloexec_round-IsCounted :
    (k : ℕ) (p : State × ℕ) → IsCounted p.0.slot → IsCounted (cloexec_round k p).0.slot
cloexec_round-IsCounted k (st, closed) v = elim (Bool-cases (fdent_at st.slot k).used) [
  | inr free ↦ rw free v
  | inl u ↦ elim (Bool-cases (cloexec (fdent_at st.slot k).fd_flags == 0)) [
    | inl stays ↦ rw (u, stays) v
    | inr goes ↦ rw (u, goes) (close_fd-IsCounted st (pos k) v)
  ]
]

pub cloexec_locked-IsCounted :
    (st : State) → IsCounted st.slot → IsCounted (cloexec_locked st).0.slot
unfolding cloexec_locked
cloexec_locked-IsCounted st v =
    for_range_inv (λ k p. IsCounted p.0.slot) cloexec_round 0 max_fds
      (λ k p _ _ h. cloexec_round-IsCounted k p h) max_fds (st, 0) refl v

-- The standard descriptors, set up on a cleared slot.
stdio_entry-IsCounted :
    (i kind flags : ℕ) (s : Slot)
    → i < max_fds
    → IsCounted s
    → (fdent_at s i).used ≡ false
    → (ofile_at s i).used ≡ false
    → IsCounted (stdio_entry i kind flags s)
stdio_entry-IsCounted i kind flags s hi v free unused =
    write_both s i i _ _ v hi hi (λ _. refl) (λ h. absurd (ground arith)) (ground (arith, v.live i))
      refl

pub init_stdio-IsCounted :
    (st : State) → Sized st.slot → IsCounted (sched_fd_table_init_stdio st).slot
unfolding sched_fd_table_init_stdio
init_stdio-IsCounted st h =
    let c = sched_fd_table_clear st.slot in
    let f : FreeBelow max_fds c = clear-FreeBelow st.slot h in
    let v0 =
      stdio_entry-IsCounted 0 type_stdin o_rdonly c (omega arith) (FreeBelow-IsCounted c f)
        (FreeBelow-fd c 0 f) (FreeBelow-ofile c 0 f).0 in
    let s0 = stdio_entry 0 type_stdin o_rdonly c in
    let v1 =
      stdio_entry-IsCounted 1 type_stdout o_wronly s0 (omega arith) v0
        (rw (get_or-set_ne c.fdtab 0 1 _ no_fdent (omega arith)) (FreeBelow-fd c 1 f))
        (rw (get_or-set_ne c.ofiles 0 1 _ no_ofile (omega arith)) (FreeBelow-ofile c 1 f).0) in
    let s1 = stdio_entry 1 type_stdout o_wronly s0 in
    stdio_entry-IsCounted 2 type_stderr o_wronly s1 (omega arith) v1
      (rw
        (
          get_or-set_ne s0.fdtab 1 2 _ no_fdent (omega arith),
          get_or-set_ne c.fdtab 0 2 _ no_fdent (omega arith),
        )
        (FreeBelow-fd c 2 f))
      (rw
        (
          get_or-set_ne s0.ofiles 1 2 _ no_ofile (omega arith),
          get_or-set_ne c.ofiles 0 2 _ no_ofile (omega arith),
        )
        (FreeBelow-ofile c 2 f).0)

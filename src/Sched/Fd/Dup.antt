-- ===== src/Sched/Fd/Dup.antt =====
-- What `sched_fd_dup_min` and `sched_fd_dup2` give back, and what they leave alone.
use octans.Prelude.{
  ℕ, ◌+◌, ◌<◌, ◌≤◌, ◌≡◌, refl, ap, ◌∙◌, ◌↔◌, ◌≢◌, ℤ, pos, some, true, false, arith, inl, inr, ◌⊎◌,
  Bool-cases, Option-cases, leb, ◌==◌, get_or-set, ok, err, add32,
}
use octans.Sched.Fd.State.{Ofile, Fdent, Slot, State, max_fds, no_fdent, no_ofile, cloexec, emfile}
use octans.Sched.Fd.Table.{
  ofile_at, fdent_at, sched_slot_ofile_by_fd, sched_slot_find_free_fd, close_at,
  sched_slot_close_fd,
}
use octans.Sched.Fd.Ops.{dup_min_locked, dup2_locked, share_at}
use octans.Sched.Fd.Refs.Inv.{IsCounted}
use octans.Sched.Fd.Refs.Share.{IsOn, by_fd-IsOn, IsOn-refs, close_fd_found, close_at-IsCounted}
use octans.Sched.Fd.Refs.Open.{find_free_fd-some, find_free_fd-none}
use octans.Sched.Fd.Refs.Loops.{by_fd-used, fdent-close_at}
use octans.Sched.Fd.Refs.Keep.{close_at-IsOn}

-- `n` is the lowest free descriptor from `m` on.
pub record IsLowestFree (s : Slot) (m n : ℕ) : Type 0 where
  pub low : m ≤ n
  pub high : n < max_fds
  pub free : (fdent_at s n).used ≡ false
  pub taken : (j : ℕ) → m ≤ j → j < n → (fdent_at s j).used ≡ true

lowest_unique : (s : Slot) (m n k : ℕ) → IsLowestFree s m n → IsLowestFree s m k → n ≡ k
lowest_unique s m n k a b = ground (arith, a.taken k b.low, b.taken n a.low, a.free, b.free)

find_free_fd-exact :
    (s : Slot) (m n : ℕ) → (sched_slot_find_free_fd s m ≡ some n) ↔ IsLowestFree s m n
find_free_fd-exact s m n = (found, lowest)
  where
    found : sched_slot_find_free_fd s m ≡ some n → IsLowestFree s m n
    found e =
        let (free, low, high, taken) = find_free_fd-some s m n e in
        record { low = low; high = high; free = free; taken = taken }

    lowest : IsLowestFree s m n → sched_slot_find_free_fd s m ≡ some n
    lowest l = elim (Option-cases (sched_slot_find_free_fd s m)) [
      | inl e ↦ absurd (ground (arith, find_free_fd-none s m n e l.low l.high, l.free))
      | inr (k, e) ↦
          let (free, low, high, taken) = find_free_fd-some s m k e in
          rw e (
            ap some (
              lowest_unique s m k n (record { low = low; high = high; free = free; taken = taken })
                l))
    ]

-- The descriptor `n` of `t` stands on the open file `o` of `s` with the flags, every other
-- descriptor is as it was, and so is every other open file.
pub record Shared (s t : Slot) (o n flags : ℕ) : Type 0 where
  pub entry : fdent_at t n ≡ record { used = true; ofile_idx = o; fd_flags = flags }
  pub others : (j : ℕ) → n ≢ j → fdent_at t j ≡ fdent_at s j
  pub file : ofile_at t o ≡ record (ofile_at s o) { refs = (ofile_at s o).refs + 1 }
  pub files : (k : ℕ) → o ≢ k → ofile_at t k ≡ ofile_at s k

share_at-Shared :
    (st : State) (i o n flags : ℕ)
    → IsCounted st.slot
    → IsOn st.slot i o
    → n < max_fds
    → Shared st.slot (share_at i o n flags st).slot o n flags
unfolding share_at
share_at-Shared st i o n flags v on hn =
    let s = st.slot in
    let e : Fdent = record {
      used = true;
      ofile_idx = (fdent_at s i).ofile_idx;
      fd_flags = flags;
    } in
    let f : Ofile = record (ofile_at s o) { refs = add32 (ofile_at s o).refs 1 } in
    let fd = λ (j : ℕ). get_or-set s.fdtab n j e no_fdent (omega (arith, v.fds_len)) in
    let file =
      λ (k : ℕ). get_or-set s.ofiles o k f no_ofile (omega (arith, v.ofiles_len, on.ofile_in)) in
    record {
      entry = ground (arith, fd n, on.idx);
      others = λ j ne. ground (arith, fd j);
      file = ground (arith, file o, IsOn-refs i o v on);
      files = λ k ne. ground (arith, file k);
    }

-- In a slot whose counts are right, for an open `oldfd` on the open file `o` and a lower bound `m`
-- below 32: either the call answers the lowest free descriptor from `m` on, which then shares the
-- open file of `oldfd`, whose count is one more, and nothing else of the table changes; or all
-- descriptors from `m` on are used, and the call is refused and changes nothing.
pub dup_min_exact :
    (st : State) (oldfd : ℤ) (i o m flags : ℕ)
    → IsCounted st.slot
    → sched_slot_ofile_by_fd st.slot oldfd ≡ some (i, o)
    → m < max_fds
    → let (t, reply) = dup_min_locked oldfd (pos m) flags st in
      ((n : ℕ) × IsLowestFree st.slot m n
        × (reply ≡ ok n)
        × Shared st.slot t.slot o n (cloexec flags))
      ⊎ (((j : ℕ) → m ≤ j → j < max_fds → (fdent_at st.slot j).used ≡ true)
          × (reply ≡ err emfile)
          × (t ≡ st))
unfolding dup_min_locked
dup_min_exact st oldfd i o m flags v e hm =
    let near : leb max_fds m ≡ false = ground arith in
    elim (Option-cases (sched_slot_find_free_fd st.slot m)) [
      | inl none_free ↦
          rw (near, e, none_free, dup_min_locked)
            (inr (λ j. find_free_fd-none st.slot m j none_free, refl, refl))
      | inr (n, found) ↦
          let lowest = (find_free_fd-exact st.slot m n).0 found in
          let on = (by_fd-IsOn st.slot oldfd i o e).0 in
          rw (near, e, found, dup_min_locked)
            (inl (n, lowest, refl, share_at-Shared st i o n (cloexec flags) v on lowest.high))
    ]

-- What closing the descriptor `n` and sharing it anew leave in the table of descriptors.
dup2_onto :
    (st : State) (i o n : ℕ)
    → IsCounted st.slot
    → IsOn st.slot i o
    → n < max_fds
    → i ≢ n
    → (fdent_at st.slot n).used ≡ true
    → let t = (share_at i o n 0 (sched_slot_close_fd st (pos n)).0).slot in
      (fdent_at t n ≡ record { used = true; ofile_idx = o; fd_flags = 0 })
      × ((j : ℕ) → n ≢ j → fdent_at t j ≡ fdent_at st.slot j)
dup2_onto st i o n v on hn ne u =
    let k = (fdent_at st.slot n).ofile_idx in
    let closed = close_at st n k in
    let valid =
      close_at-IsCounted st n k v
        (record { fd_in = hn; opened = u; idx = refl; ofile_in = v.in_range n u }) in
    let sh = share_at-Shared closed i o n 0 valid (close_at-IsOn st i o n k v on hn ne) hn in
    rw (close_fd_found st (pos n) n k (by_fd-used st.slot n v hn u))
      (sh.entry, λ j other. sh.others j other ∙ ground (arith, fdent-close_at st n k j v hn))

-- In a slot whose counts are right, `dup2` of an open descriptor on the open file `o` onto another
-- descriptor `n` below 32, open or not, answers `n`; then `n` stands on `o` with no flags, and every
-- other descriptor is as it was.
pub dup2_exact :
    (st : State) (oldfd : ℤ) (i o n : ℕ)
    → IsCounted st.slot
    → sched_slot_ofile_by_fd st.slot oldfd ≡ some (i, o)
    → n < max_fds
    → i ≢ n
    → let (t, reply) = dup2_locked oldfd (pos n) st in
      (reply ≡ ok n)
      × (fdent_at t.slot n ≡ record { used = true; ofile_idx = o; fd_flags = 0 })
      × ((j : ℕ) → n ≢ j → fdent_at t.slot j ≡ fdent_at st.slot j)
unfolding dup2_locked
dup2_exact st oldfd i o n v e hn ne =
    let near : leb max_fds n ≡ false = ground arith in
    let other : (i == n) ≡ false = ground arith in
    let on = (by_fd-IsOn st.slot oldfd i o e).0 in
    elim (Bool-cases (fdent_at st.slot n).used) [
      | inl u ↦
          let (entry, others) = dup2_onto st i o n v on hn ne u in
          rw (near, e, other, u, dup2_locked) (refl, entry, others)
      | inr free ↦
          let sh = share_at-Shared st i o n 0 v on hn in
          rw (near, e, other, free, dup2_locked) (refl, sh.entry, sh.others)
    ]

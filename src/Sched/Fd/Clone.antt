-- ===== src/Sched/Fd/Clone.antt =====
-- `sched_fd_table_clone`: the clone of a table whose counts are right succeeds and is that table,
-- but for the socket pointers.
use octans.Prelude.{
  ℕ, zero, suc, ◌+◌, ◌<◌, ◌≤◌, ◌≡◌, refl, ap, subst, sym, ◌∙◌, true, false, if◌then◌else◌, arith,
  inl, inr, Bool-cases, leb, tally, tally-take, tally-take-le, tally-le-length, take, take_all,
  list_ext, length, get_or, get_or-set, get_or_beyond, length-set, for_range, for_range_inv, ok,
  add32,
}
use octans.Sched.Fd.State.{Ofile, Slot, State, Reply, max_fds, no_ofile, no_fdent}
use octans.Sched.Fd.Table.{
  ofile_at, fdent_at, put_ofile, ofile_copy, clear_entry, clone_entry, clone_zero, clone_count,
  clone_ref, sched_fd_table_clear, sched_fd_table_clone, sched_ofile_reset,
}
use octans.Sched.Fd.Refs.Inv.{IsCounted, points}
use octans.Sched.Fd.Refs.Share.{IsOn, IsOn-refs}
use octans.Sched.Fd.Refs.Loops.{Sized}

-- The socket pointers of `d` are still there.
abbrev SockSame : Slot → Slot → Type 0
SockSame d s = (o : ℕ) → (ofile_at s o).sock_ptr ≡ (ofile_at d o).sock_ptr

record Kept (d s : Slot) : Type 0 where
  sized : Sized s
  socks : SockSame d s

clear_entry-Kept : (d : Slot) (k : ℕ) (s : Slot) → k < max_fds → Kept d s → Kept d (clear_entry k s)
clear_entry-Kept d k s hk v = record {
  sized = (rw length-set v.sized.0, rw length-set v.sized.1);
  socks = λ o. ground (
    arith,
    get_or-set s.ofiles k o (sched_ofile_reset (ofile_at s k)) no_ofile,
    v.sized.0,
    v.socks o,
  );
}

clear-Kept : (d : Slot) → Sized d → Kept d (sched_fd_table_clear d)
unfolding sched_fd_table_clear
clear-Kept d h =
    for_range_inv (λ _ s. Kept d s) clear_entry 0 max_fds
      (λ k s _ hk v. clear_entry-Kept d k s hk v) max_fds d refl
      (record { sized = h; socks = λ o. refl })

-- The first `k` entries of both tables are copied.
record Copied (src d : Slot) (k : ℕ) (s : Slot) : Type 0 where
  kept : Kept d s
  fds : (i : ℕ) → i < k → fdent_at s i ≡ fdent_at src i
  ofiles : (o : ℕ) → o < k → ofile_at s o ≡ ofile_copy (ofile_at src o) (ofile_at d o)

clone_entry-Copied :
    (src d : Slot) (k : ℕ) (s : Slot)
    → k < max_fds
    → Copied src d k s
    → Copied src d (k + 1) (clone_entry src k s)
clone_entry-Copied src d k s hk v =
    let new = ofile_copy (ofile_at src k) (ofile_at s k) in
    let read = λ (o : ℕ). get_or-set s.ofiles k o new no_ofile (omega (arith, v.kept.sized.0)) in
    record {
      kept = record {
        sized = (rw length-set v.kept.sized.0, rw length-set v.kept.sized.1);
        socks = λ o. ground (arith, read o, v.kept.socks o);
      };
      fds = λ i hi.
          ground (arith, get_or-set s.fdtab k i (fdent_at src k) no_fdent, v.kept.sized.1, v.fds i);
      ofiles = λ o ho. ground (arith, read o, v.ofiles o, v.kept.socks k);
    }

-- The counts of the first `k` copies are zeroed.
record Zeroed (c : Slot) (k : ℕ) (s : Slot) : Type 0 where
  len : length s.ofiles ≡ max_fds
  fds : s.fdtab ≡ c.fdtab
  done : (o : ℕ) → o < k → ofile_at s o ≡ record (ofile_at c o) { refs = 0 }
  todo : (o : ℕ) → k ≤ o → ofile_at s o ≡ ofile_at c o

clone_zero-Zeroed :
    (c : Slot) (k : ℕ) (s : Slot) → k < max_fds → Zeroed c k s → Zeroed c (k + 1) (clone_zero k s)
clone_zero-Zeroed c k s hk v =
    let read = λ (o : ℕ).
      get_or-set s.ofiles k o (record (ofile_at s k) { refs = 0 }) no_ofile
        (omega (arith, v.len)) in
    record {
      len = rw length-set v.len;
      fds = v.fds;
      done = λ o ho. ground (arith, read o, v.done o, v.todo k);
      todo = λ o ho. ground (arith, read o, v.todo o);
    }

-- What the clone makes of the source's open file `o`, with the count `n`.
abbrev pub clone_ofile : Slot → Slot → ℕ → ℕ → Ofile
clone_ofile src d o n = record (ofile_copy (ofile_at src o) (ofile_at d o)) { refs = n }

-- The references of the first `k` descriptors are counted.
record Counting (src d : Slot) (k : ℕ) (s : Slot) : Type 0 where
  len : length s.ofiles ≡ max_fds
  fds : s.fdtab ≡ src.fdtab
  counts :
      (o : ℕ)
      → o < max_fds
      → ofile_at s o ≡ clone_ofile src d o (tally (points o) (take k src.fdtab))

module _ (src d : Slot) (v : IsCounted src) where
  count_one-Counting :
      (k : ℕ) (s : Slot)
      → k < max_fds
      → (fdent_at src k).used ≡ true
      → Counting src d k s
      → Counting src d
          (suc k)
          (put_ofile (fdent_at src k).ofile_idx (λ f. record f { refs = add32 f.refs 1 }) s)
  count_one-Counting k s hk u c =
      let i = (fdent_at src k).ofile_idx in
      let new = record (ofile_at s i) { refs = add32 (ofile_at s i).refs 1 } in
      let hi = v.in_range k u in
      record {
        len = rw length-set c.len;
        fds = c.fds;
        counts = λ o ho. ground (
          arith,
          get_or-set s.ofiles i o new no_ofile (omega (arith, c.len)),
          c.counts o ho,
          c.counts i hi,
          tally-take (points o) src.fdtab k no_fdent (omega (arith, v.fds_len)),
          tally-le-length (points o) src.fdtab,
          tally-take-le (points o) src.fdtab k,
          v.fds_len,
        );
      }

  skip_one-Counting :
      (k : ℕ) (s : Slot)
      → k < max_fds
      → (fdent_at src k).used ≡ false
      → Counting src d k s
      → Counting src d (suc k) s
  skip_one-Counting k s hk free c = record {
    len = c.len;
    fds = c.fds;
    counts = λ o ho. ground (
      arith,
      c.counts o ho,
      tally-take (points o) src.fdtab k no_fdent (omega (arith, v.fds_len)),
    );
  }

  -- The open file under a used descriptor is in use in the clone too.
  clone_used :
      (k : ℕ) (s : Slot)
      → k < max_fds
      → (fdent_at src k).used ≡ true
      → Counting src d k s
      → (ofile_at s (fdent_at src k).ofile_idx).used ≡ true
  clone_used k s hk u c =
      let i = (fdent_at src k).ofile_idx in
      let on : IsOn src k i = record {
        fd_in = hk;
        opened = u;
        idx = refl;
        ofile_in = v.in_range k u;
      } in
      ground (arith, c.counts i (v.in_range k u), IsOn-refs k i v on)

  clone_ref-Counting :
      (k : ℕ) (st : State)
      → k < max_fds
      → (fdent_at src k).used ≡ true
      → Counting src d k st.slot
      → Counting src d (suc k) (clone_ref k st).slot
  unfolding clone_ref
  clone_ref-Counting k st hk u c =
      rw (ap (λ l. get_or l k no_fdent) c.fds) (count_one-Counting k st.slot hk u c)

  -- A round does not stop the loop.
  clone_count-suc :
      (n k : ℕ) (st : State)
      → k < max_fds
      → Counting src d k st.slot
      → clone_count (suc n) k st
        ≡ clone_count n (suc k) (if (fdent_at src k).used then clone_ref k st else st)
  unfolding clone_count
  clone_count-suc n k st hk c =
      let at : fdent_at st.slot k ≡ fdent_at src k = ap (λ l. get_or l k no_fdent) c.fds in
      let next : k + 1 ≡ suc k = omega arith in
      elim (Bool-cases (fdent_at src k).used) [
        | inr free ↦ rw (at, free, next) refl
        | inl u ↦
            let inside : leb max_fds (fdent_at src k).ofile_idx ≡ false =
              ground (arith, v.in_range k u) in
            rw (at, u, inside, clone_used k st.slot hk u c, next) refl
      ]

  clone_round-Counting :
      (k : ℕ) (st : State)
      → k < max_fds
      → Counting src d k st.slot
      → Counting src d (suc k) (if (fdent_at src k).used then clone_ref k st else st).slot
  clone_round-Counting k st hk c = elim (Bool-cases (fdent_at src k).used) [
    | inl u ↦ rw u (clone_ref-Counting k st hk u c)
    | inr free ↦ rw free (skip_one-Counting k st.slot hk free c)
  ]

  clone_count-Counting :
      (n k : ℕ) (st : State)
      → k + n ≡ max_fds
      → Counting src d k st.slot
      → let (t, reply) = clone_count n k st in (reply ≡ ok 0) × Counting src d max_fds t.slot
  unfolding clone_count
  clone_count-Counting zero k st e c = let same : k ≡ max_fds = omega arith in (refl, rw (← same) c)
  clone_count-Counting (suc n) k st e c =
      subst (λ (r : State × Reply). (r.1 ≡ ok 0) × Counting src d max_fds r.0.slot)
        (sym (clone_count-suc n k st (omega arith) c))
        (clone_count-Counting n (suc k) (if (fdent_at src k).used then clone_ref k st else st)
          (omega arith) (clone_round-Counting k st (omega arith) c))

  -- The state of the table before the references are counted.
  copied-Counting :
      Sized d
      → Counting src d 0 (
          for_range max_fds 0 clone_zero
            (for_range max_fds 0 (clone_entry src) (sched_fd_table_clear d)))
  unfolding tally
  copied-Counting h =
      let c0 = sched_fd_table_clear d in
      let k0 = clear-Kept d h in
      let copied =
        for_range_inv (Copied src d) (clone_entry src) 0 max_fds
          (λ k s _ hk c. clone_entry-Copied src d k s hk c) max_fds c0 refl
          (record {
            kept = k0;
            fds = λ i hi. absurd (omega arith);
            ofiles = λ o ho. absurd (omega arith);
          }) in
      let c1 = for_range max_fds 0 (clone_entry src) c0 in
      let zeroed =
        for_range_inv (Zeroed c1) clone_zero 0 max_fds (λ k s _ hk z. clone_zero-Zeroed c1 k s hk z)
          max_fds c1 refl
          (record {
            len = copied.kept.sized.0;
            fds = refl;
            done = λ o ho. absurd (omega arith);
            todo = λ o ho. refl;
          }) in
      record {
        len = zeroed.len;
        fds =
            zeroed.fds
            ∙ list_ext c1.fdtab src.fdtab no_fdent (copied.kept.sized.1 ∙ sym v.fds_len)
                (λ i hi. copied.fds i (omega (arith, copied.kept.sized.1)));
        counts = λ o ho.
            zeroed.done o ho
            ∙ ap (λ (f : Ofile). record f { refs = 0 }) (copied.ofiles o ho)
            ∙ ap (clone_ofile src d o) refl;
      }

  Counting-IsCounted : (s : Slot) → Counting src d max_fds s → IsCounted s
  Counting-IsCounted s c =
      let all =
        λ (o : ℕ). ap (tally (points o)) (take_all max_fds src.fdtab (omega (arith, v.fds_len))) in
      record {
        ofiles_len = c.len;
        fds_len = rw c.fds v.fds_len;
        in_range = rw c.fds v.in_range;
        counted = λ o ho.
            ap (λ (f : Ofile). f.refs) (c.counts o ho) ∙ all o ∙ ap (tally (points o)) (sym c.fds);
        live = λ o. ground (
          arith,
          c.counts o,
          all o,
          v.counted o,
          v.live o,
          get_or_beyond s.ofiles o no_ofile,
          c.len,
        );
      }

  ofile_same :
      (s : Slot) (o : ℕ)
      → Counting src d max_fds s
      → o < max_fds
      → ofile_at s o ≡ ofile_copy (ofile_at src o) (ofile_at d o)
  ofile_same s o c ho =
      c.counts o ho
      ∙ ap (clone_ofile src d o) (
          ap (tally (points o)) (take_all max_fds src.fdtab (omega (arith, v.fds_len)))
          ∙ sym (v.counted o ho))

-- The clone of a slot whose counts are right, into a slot whose tables have their 32 entries,
-- succeeds: the descriptors are the source's, each open file is the source's (its count included)
-- but keeps the socket pointer that the target had, and the counts of the clone are right.
pub clone_lem :
    (src : Slot) (st : State)
    → IsCounted src
    → Sized st.slot
    → let (t, reply) = sched_fd_table_clone st src in
      (reply ≡ ok 0)
      × (t.slot.fdtab ≡ src.fdtab)
      × ((o : ℕ)
          → o < max_fds
          → ofile_at t.slot o
            ≡ record (ofile_at src o) { sock_ptr = (ofile_at st.slot o).sock_ptr })
      × IsCounted t.slot
unfolding sched_fd_table_clone
clone_lem src st v h =
    let d = st.slot in
    let (answer, c) =
      clone_count-Counting src d v max_fds 0
        (record st {
          slot =
              for_range max_fds 0 clone_zero
                (for_range max_fds 0 (clone_entry src) (sched_fd_table_clear d));
        })
        refl (copied-Counting src d v h) in
    (answer, c.fds, λ o ho. ofile_same src d v _ o c ho, Counting-IsCounted src d v _ c)

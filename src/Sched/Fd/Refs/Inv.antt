-- ===== src/Sched/Fd/Refs/Inv.antt =====
-- The invariant that ties the two tables of a slot together, and the effect of one write to each.
use octans.Prelude.{
  ℕ, ◌+◌, ◌<◌, ◌≡◌, Bool, true, ◌&&◌, not, ◌==◌, bit, tally, tally-set, length, set, length-set,
  get_or-set, arith,
}
use octans.Sched.Fd.State.{Ofile, Fdent, Slot, max_fds, no_fdent, no_ofile}
use octans.Sched.Fd.Table.{ofile_at, fdent_at}

-- The entry refers to the open file `o`.
abbrev pub points : ℕ → Fdent → Bool
points o e = e.used && e.ofile_idx == o

-- How many descriptors of the slot refer to the open file `o`.
abbrev pub holders : Slot → ℕ → ℕ
holders s o = tally (points o) s.fdtab

pub record IsCounted (s : Slot) : Type 0 where
  pub ofiles_len : length s.ofiles ≡ max_fds
  pub fds_len : length s.fdtab ≡ max_fds
  -- A used descriptor refers into the table of open files,
  pub in_range : (i : ℕ) → (fdent_at s i).used ≡ true → (fdent_at s i).ofile_idx < max_fds
  -- each count is the number of descriptors that refer to the open file,
  pub counted : (o : ℕ) → o < max_fds → (ofile_at s o).refs ≡ holders s o
  -- and an open file is in use exactly while its count is not 0.
  pub live : (o : ℕ) → (ofile_at s o).used ≡ not ((ofile_at s o).refs == 0)

-- One write to each table keeps the invariant, if the new entry is in range and the new count
-- differs from the old by what the entry's change takes away and adds.
pub write_both :
    (s : Slot) (n o : ℕ) (e : Fdent) (f : Ofile)
    → IsCounted s
    → n < max_fds
    → o < max_fds
    → (e.used ≡ true → e.ofile_idx ≡ o)
    → ((fdent_at s n).used ≡ true → (fdent_at s n).ofile_idx ≡ o)
    → f.refs + bit (points o (fdent_at s n)) ≡ (ofile_at s o).refs + bit (points o e)
    → f.used ≡ not (f.refs == 0)
    → IsCounted (record { ofiles = set s.ofiles o f; fdtab = set s.fdtab n e })
write_both s n o e f v hn ho new old count used = record {
  ofiles_len = rw length-set v.ofiles_len;
  fds_len = rw length-set v.fds_len;
  in_range = λ i u.
      ground
        (arith, get_or-set s.fdtab n i e no_fdent (omega (arith, v.fds_len)), v.in_range i, new);
  counted = λ k hk. ground (
    arith,
    get_or-set s.ofiles o k f no_ofile (omega (arith, v.ofiles_len)),
    tally-set (points k) s.fdtab n e no_fdent (omega (arith, v.fds_len)),
    v.counted k hk,
  );
  live = λ k.
      ground (arith, get_or-set s.ofiles o k f no_ofile (omega (arith, v.ofiles_len)), v.live k);
}

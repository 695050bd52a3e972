-- ===== src/Sched/Fd/Position.antt =====
-- Positions and flags of an open file: `sched_fd_lseek`, `sched_fd_regular_advance`,
-- `sched_fd_regular_commit_write` and `sched_fd_fcntl_setfl` against plain arithmetic.
use octans.Prelude.{
  ℕ, ◌+◌, ◌%◌, ◌^◌, ◌<◌, ◌≤◌, ◌≡◌, refl, ap, ◌↔◌, ℤ, pos, negsuc, none, some, true, min, arith, inl,
  inr, ◌⊎◌, ◌==◌, u32_max, get_or-set_self, length, ok, err, Option-cases, max, ap₂, ◌/◌,
}
use octans.Sched.Fd.State.{Ofile, State, einval, no_ofile, type_regular, accmode, nonblock}
use octans.Sched.Fd.Table.{ofile_at, put_ofile}
use octans.Sched.Fd.File.{
  advance_next, committed, seek_base, seek_next, lseek_at, advance_at, commit_at, setfl_at,
  set_nonblock,
}

-- `next` is `base` moved by the signed `offset`.
abbrev pub Moved : ℕ → ℤ → ℕ → Type 0
Moved base (pos n) next = next ≡ base + n
Moved base (negsuc n) next = next + (n + 1) ≡ base

-- `base` moved by `offset` is below 0, or not a number of 32 bits.
abbrev pub OutOfRange : ℕ → ℤ → Type 0
OutOfRange base (pos n) = u32_max < base + n
OutOfRange base (negsuc n) = base < n + 1

-- The range of an int32_t.
abbrev pub IsInt32 : ℤ → Type 0
IsInt32 (pos n) = n < 2 ^ 31
IsInt32 (negsuc n) = n < 2 ^ 31

seek_next-exact :
    (base : ℕ) (offset : ℤ) (next : ℕ)
    → base ≤ u32_max
    → IsInt32 offset
    → (seek_next base offset ≡ some next) ↔ (Moved base offset next × (next ≤ u32_max))
seek_next-exact base (pos n) next hb ho = (λ e. ground arith, λ m. ground arith)
seek_next-exact base (negsuc n) next hb ho = (λ e. ground arith, λ m. ground arith)

seek_next-refused :
    (base : ℕ) (offset : ℤ)
    → base ≤ u32_max
    → IsInt32 offset
    → seek_next base offset ≡ none
    → OutOfRange base offset
seek_next-refused base (pos n) hb ho e = ground arith
seek_next-refused base (negsuc n) hb ho e = ground arith

module _ (i o : ℕ) (st : State) (inside : o < length st.slot.ofiles) where
  file_of_put : (f : Ofile → Ofile) → ofile_at (put_ofile o f st.slot) o ≡ f (ofile_at st.slot o)
  file_of_put f = get_or-set_self st.slot.ofiles o (f (ofile_at st.slot o)) no_ofile inside

  -- On a regular file in the table, with a base of 32 bits that `whence` names and an offset of
  -- 32 bits: either a seek
  -- answers the base moved by the offset, a number of 32 bits, and the file stands there; or the
  -- base moved by the offset is below 0 or not of 32 bits, and the seek is refused and changes
  -- nothing.
  pub lseek_exact :
      (offset : ℤ) (whence base : ℕ)
      → (ofile_at st.slot o).kind ≡ type_regular
      → seek_base whence (ofile_at st.slot o) ≡ some base
      → base ≤ u32_max
      → IsInt32 offset
      → let (t, reply) = lseek_at offset whence i o st in
        ((next : ℕ) × Moved base offset next
          × (next ≤ u32_max)
          × (reply ≡ ok next)
          × ((ofile_at t.slot o).file_offset ≡ next))
        ⊎ (OutOfRange base offset × (reply ≡ err einval) × (t ≡ st))
  unfolding lseek_at
  lseek_exact offset whence base regular eb hb ho = elim (Option-cases (seek_next base offset)) [
    | inl refused ↦
        rw (regular, eb, refused) (inr (seek_next-refused base offset hb ho refused, refl, refl))
    | inr (n, found) ↦
        let (moved, fits) = (seek_next-exact base offset n hb ho).0 found in
        rw (regular, eb, found)
          (inl (
            n,
            moved,
            fits,
            refl,
            ap (λ f. f.file_offset) (file_of_put (λ f. record f { file_offset = n })),
          ))
  ]

  -- After a read of `delta` bytes a regular file in the table stands `delta` further, but not past its size, with
  -- no wrap for numbers of 32 bits.
  advance_exact :
      (delta : ℕ)
      → (ofile_at st.slot o).kind ≡ type_regular
      → (ofile_at st.slot o).file_offset ≤ u32_max
      → (ofile_at st.slot o).file_size ≤ u32_max
      → delta ≤ u32_max
      → let (t, reply) = advance_at delta i o st in
        let f = ofile_at st.slot o in
        (reply ≡ ok (min (f.file_offset + delta) f.file_size))
        × (ofile_at t.slot o ≡ record f { file_offset = min (f.file_offset + delta) f.file_size })
  unfolding advance_at
  advance_exact delta regular ho hs hd =
      let f = ofile_at st.slot o in
      let next = advance_next f.file_offset f.file_size delta in
      let sum : next ≡ min (f.file_offset + delta) f.file_size = ground arith in
      let test : (f.kind == type_regular) ≡ true = ground arith in
      rw test (
        ap ok sum,
        rw (file_of_put (λ g. record g { file_offset = next }))
            (ap (λ n. record f { file_offset = n }) sum),
      )

  -- After a write a regular file in the table has the larger of its size and the new size, and stands `written`
  -- further, but not past that size, with no wrap for numbers of 32 bits.
  commit_exact :
      (written new_size : ℕ)
      → (ofile_at st.slot o).kind ≡ type_regular
      → (ofile_at st.slot o).file_offset ≤ u32_max
      → (ofile_at st.slot o).file_size ≤ u32_max
      → written ≤ u32_max
      → new_size ≤ u32_max
      → let (t, reply) = commit_at written new_size i o st in
        let f = ofile_at st.slot o in
        let size = max f.file_size new_size in
        (reply ≡ ok (min (f.file_offset + written) size))
        × (ofile_at t.slot o
            ≡ record f { file_size = size; file_offset = min (f.file_offset + written) size })
  unfolding commit_at
  commit_exact written new_size regular ho hs hw hn =
      let f = ofile_at st.slot o in
      let size : (committed written new_size f).file_size ≡ max f.file_size new_size =
        ground arith in
      let next : (committed written new_size f).file_offset
          ≡ min (f.file_offset + written) (max f.file_size new_size) =
        ground arith in
      let test : (f.kind == type_regular) ≡ true = ground arith in
      rw test (
        ap ok next,
        rw (file_of_put (committed written new_size))
            (ap₂ (λ (s n : ℕ). record f { file_size = s; file_offset = n }) size next),
      )

  -- Setting the flags of an open file in the table changes the non-blocking bit to that of the new flags, and no other bit of
  -- the access mode or above it.
  setfl_exact :
      (flags : ℕ)
      → let t = (setfl_at flags i o st).0 in
        let old = (ofile_at st.slot o).status_flags in
        let new = (ofile_at t.slot o).status_flags in
        (nonblock new ≡ nonblock flags)
        × (accmode new ≡ accmode old)
        × (new % 2 ^ 11 ≡ old % 2 ^ 11)
        × (new / 2 ^ 12 ≡ old / 2 ^ 12)
  unfolding setfl_at
  setfl_exact flags =
      let set_flags =
        λ (f : Ofile). record f { status_flags = set_nonblock f.status_flags flags } in
      rw (file_of_put set_flags) (omega arith)

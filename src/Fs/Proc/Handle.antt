-- ===== src/Fs/Proc/Handle.antt =====
-- A descriptor of a regular file in the current slot, as the calls of src/fs_proc.c meet it.
use octans.Prelude.{
  ℕ, ◌+◌, ◌<◌, ◌≤◌, ◌≡◌, refl, sym, ap, subst, ◌∙◌, pos, Option, none, some, true, false, leb, ◌==◌,
  min, length, length-set, get_or-set_self, ok, err, Result, not, if◌then◌else◌, u32_max, arith,
}
use octans.Sched.Fd.State.{
  Ofile, Slot, System, Pipes, State, Reply, FdError, ebadf, max_fds, type_regular, no_ofile,
}
use octans.Sched.Fd.Table.{ofile_at, put_ofile, fdent_at, sched_slot_ofile_by_fd}
use octans.Sched.Fd.File.{
  with_ofile, sched_fd_regular_get, sched_fd_regular_advance, advance_at, advance_next,
}

abbrev pub index_of : ℕ → Slot → ℕ
index_of fd slot = (fdent_at slot fd).ofile_idx

-- The descriptor `fd` of the slot stands for the open regular file `f`.
pub record IsOpen (fd : ℕ) (f : Ofile) (slot : Slot) : Type 0 where
  pub fits : leb max_fds fd ≡ false
  pub taken : (fdent_at slot fd).used ≡ true
  pub index : leb max_fds (index_of fd slot) ≡ false
  pub inside : index_of fd slot < length slot.ofiles
  pub file : ofile_at slot (index_of fd slot) ≡ f
  pub live : f.used ≡ true
  pub shared : (f.refs == 0) ≡ false
  pub regular : f.kind ≡ type_regular
  pub offset : f.file_offset ≤ u32_max
  pub size : f.file_size ≤ u32_max

-- The layer while the task with this slot runs.
abbrev pub running_on : Slot → Pipes → System
running_on slot pipes = record { current = some slot; shared = pipes }

abbrev pub moved_to : ℕ → Ofile → Ofile
moved_to next f = record f { file_offset = next }

-- A result over the slot and the pipes, as one over the layer.
abbrev answer : {A : Type 0} → State × A → System × A
answer (t, a) = (record { current = some t.slot; shared = t.shared }, a)

module _ (fd : ℕ) (f : Ofile) (slot : Slot) (pipes : Pipes) (h : IsOpen fd f slot) where
  found_open : sched_slot_ofile_by_fd slot (pos fd) ≡ some (fd, index_of fd slot)
  unfolding sched_slot_ofile_by_fd
  found_open = rw (h.fits, h.taken, h.index, h.file, h.live, h.shared) refl

  -- A call that looks the descriptor up finds its open file.
  with_ofile-open :
      {A : Type 0} (missing : A) (body : ℕ → ℕ → State → State × A)
      → with_ofile missing (pos fd) body (running_on slot pipes)
        ≡ answer (body fd (index_of fd slot) (record { slot = slot; shared = pipes }))
  with_ofile-open missing body =
      let st : State = record { slot = slot; shared = pipes } in
      ap
        (λ (found : Option (ℕ × ℕ)).
          answer (elim found [ none ↦ (st, missing) | some (i, o) ↦ body i o st ]))
        found_open

  pub regular_get-IsOpen :
      sched_fd_regular_get (pos fd) (running_on slot pipes) ≡ (running_on slot pipes, ok f)
  unfolding sched_fd_regular_get
  regular_get-IsOpen =
      let test : (f.kind == type_regular) ≡ true = ground (arith, h.regular) in
      let body = λ (i o : ℕ) (st : State).
        let g = ofile_at st.slot o in
        let out : State × Result FdError Ofile =
          if not (g.kind == type_regular) then (st, err ebadf) else (st, ok g) in
        out in
      let met : answer (body fd (index_of fd slot) (record { slot = slot; shared = pipes }))
          ≡ (running_on slot pipes, ok f) =
        rw (h.file, test) refl in
      with_ofile-open (err ebadf) body ∙ met

  -- The slot after the position of the open file was set.
  abbrev at_offset : ℕ → Slot
  at_offset next = put_ofile (index_of fd slot) (moved_to next) slot

  at_offset-IsOpen : (next : ℕ) → next ≤ u32_max → IsOpen fd (moved_to next f) (at_offset next)
  at_offset-IsOpen next small = record {
    fits = h.fits;
    taken = h.taken;
    index = h.index;
    inside = subst (λ n. index_of fd slot < n) (sym (length-set slot.ofiles _ _)) h.inside;
    file =
        get_or-set_self slot.ofiles (index_of fd slot) _ no_ofile h.inside
        ∙ ap (moved_to next) h.file;
    live = h.live;
    shared = h.shared;
    regular = h.regular;
    offset = small;
    size = h.size;
  }

  -- A step of `delta` leaves the descriptor open, further on but not past the size.
  pub regular_advance-IsOpen :
      (delta : ℕ)
      → delta ≤ u32_max
      → (slot' : Slot) × IsOpen fd (moved_to (min (f.file_offset + delta) f.file_size) f) slot'
        × ((sched_fd_regular_advance (pos fd) delta (running_on slot pipes)).0
            ≡ running_on slot' pipes)
  unfolding sched_fd_regular_advance advance_at
  regular_advance-IsOpen delta small =
      let test : (f.kind == type_regular) ≡ true = ground (arith, h.regular) in
      let next = advance_next f.file_offset f.file_size delta in
      let st : State = record { slot = slot; shared = pipes } in
      let met : answer (advance_at delta fd (index_of fd slot) st)
          ≡ (running_on (at_offset next) pipes, ok next) =
        rw (h.file, test) refl in
      let sum : next ≡ min (f.file_offset + delta) f.file_size = ground (arith, h.offset, h.size) in
      (
        at_offset next,
        subst (λ n. IsOpen fd (moved_to n f) (at_offset next)) sum
            (at_offset-IsOpen next (omega (arith, sum, h.size))),
        ap (λ (r : System × Reply). r.0) (with_ofile-open (err ebadf) (advance_at delta) ∙ met),
      )

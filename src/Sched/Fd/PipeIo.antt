-- ===== src/Sched/Fd/PipeIo.antt =====
-- Reading and writing a pipe: `sched_fd_pipe_id_for_fd` to `sched_fd_pipe_write_ready` of
-- src/sched_fd.c. The bytes that the source stores through `dst` are part of the result.
use octans.Prelude.{
  ℕ, zero, suc, ◌-◌, ◌%◌, ℤ, List, [], ◌∷◌, Bool, false, ◌&&◌, ◌||◌, not, ltb, leb, ◌==◌,
  if◌then◌else◌, length, get_or, set, add32, ok, err,
}
use octans.Sched.Fd.State.{
  Pipe, Pipes, State, System, Reply, ebadf, eagain, epipe, pipe_max, pipe_cap, no_pipe,
  type_pipe_read, type_pipe_write,
}
use octans.Sched.Fd.Pipe.{sched_pipe_init_once, pipe_live}
use octans.Sched.Fd.Table.{ofile_at, sched_slot_ofile_by_fd}
use octans.Sched.Fd.File.{with_ofile}

unfoldable pub pipe_id_at : ℕ → ℕ → ℕ → State → State × Reply
pipe_id_at want i o st =
    let f = ofile_at st.slot o in
    if not (f.kind == want) || leb pipe_max f.fs_backend
    then (st, err ebadf)
    else (st, ok f.fs_backend)

unfoldable pub sched_fd_pipe_id_for_fd : ℤ → ℕ → System → System × Reply
unfolding sched_slot_ofile_by_fd pipe_id_at
sched_fd_pipe_id_for_fd fd want = with_ofile (err ebadf) fd (pipe_id_at want)

abbrev pub pipe_pop : Pipe → Pipe
pipe_pop p = record p { head = add32 p.head 1 % pipe_cap; len = p.len - 1 }

-- The loop of `sched_fd_pipe_read`; the number is `len - copied`.
unfoldable pub pipe_take : ℕ → Pipe → Pipe × List ℕ
pipe_take zero p = (p, [])
pipe_take (suc n) p =
    let rest = pipe_take n (pipe_pop p) in
    if p.len == 0 then (p, []) else (rest.0, get_or p.buf p.head 0 ∷ rest.1)

abbrev pub pipe_push : ℕ → Pipe → Pipe
pipe_push b p = record p { buf = set p.buf (add32 p.head p.len % pipe_cap) b; len = add32 p.len 1 }

-- The loop of `sched_fd_pipe_write` over the bytes that are left; the count is `written`.
unfoldable pub pipe_put : List ℕ → Pipe → Pipe × ℕ
pipe_put [] p = (p, 0)
pipe_put (b ∷ bs) p =
    let rest = pipe_put bs (pipe_push b p) in
    if ltb p.len pipe_cap then (rest.0, suc rest.1) else (p, 0)

abbrev pub pipe_at : Pipes → ℕ → Pipe
pipe_at g id = get_or g.pipes id no_pipe

abbrev pub with_pipe : ℕ → Pipe → Pipes → Pipes
with_pipe id p g = record g { pipes = set g.pipes id p }

-- What `sched_fd_pipe_read` does with `g_pipe_lock` held.
unfoldable pub pipe_read_locked : ℕ → ℕ → Pipes → Pipes × Reply × List ℕ
unfolding pipe_take
pipe_read_locked id len g =
    let (p, bytes) = pipe_take len (pipe_at g id) in
    if not (pipe_live g id)
    then (g, err ebadf, [])
    else if not (length bytes == 0)
    then (with_pipe id p g, ok (length bytes), bytes)
    else if p.write_refs == 0
    then (with_pipe id p g, ok 0, [])
    else (with_pipe id p g, err eagain, [])

-- What `sched_fd_pipe_write` does with `g_pipe_lock` held.
unfoldable pub pipe_write_locked : ℕ → List ℕ → Pipes → Pipes × Reply
unfolding pipe_put
pipe_write_locked id src g =
    let (p, written) = pipe_put src (pipe_at g id) in
    if not (pipe_live g id)
    then (g, err ebadf)
    else if (pipe_at g id).read_refs == 0
    then (g, err epipe)
    else if not (written == 0)
    then (with_pipe id p g, ok written)
    else (with_pipe id p g, err eagain)

-- `dst` tells whether the pointer is not NULL.
unfoldable pub sched_fd_pipe_read : ℤ → Bool → ℕ → System → System × Reply × List ℕ
unfolding sched_fd_pipe_id_for_fd sched_pipe_init_once pipe_read_locked
sched_fd_pipe_read fd dst len s =
    let (s', rc) = sched_fd_pipe_id_for_fd fd type_pipe_read s in
    if not dst || len == 0 then (s, ok 0, []) else elim rc [
      | err e ↦ (s', err e, [])
      | ok id ↦
          let (g, reply, bytes) = pipe_read_locked id len (sched_pipe_init_once s'.shared) in
          (record s' { shared = g }, reply, bytes)
    ]

-- The list is `src[0..len)`; `present` tells whether the pointer is not NULL.
unfoldable pub sched_fd_pipe_write : ℤ → Bool → List ℕ → System → System × Reply
unfolding sched_fd_pipe_id_for_fd sched_pipe_init_once pipe_write_locked
sched_fd_pipe_write fd present src s =
    let (s', rc) = sched_fd_pipe_id_for_fd fd type_pipe_write s in
    if not present || length src == 0 then (s, ok 0) else elim rc [
      | err e ↦ (s', err e)
      | ok id ↦
          let (g, reply) = pipe_write_locked id src (sched_pipe_init_once s'.shared) in
          (record s' { shared = g }, reply)
    ]

-- The test that one of the two ready calls makes on the pipe of the descriptor.
abbrev pub pipe_ready : ℤ → ℕ → (Pipe → Bool) → System → System × Bool
pipe_ready fd want test s =
    let (s', rc) = sched_fd_pipe_id_for_fd fd want s in
    elim rc [
      | err e ↦ (s', false)
      | ok id ↦
          let g = sched_pipe_init_once s'.shared in
          (record s' { shared = g }, pipe_live g id && test (pipe_at g id))
    ]

-- There are bytes, or no writer is left; there is a reader and room.
abbrev pub read_test : Pipe → Bool
read_test p = not (p.len == 0) || p.write_refs == 0

abbrev pub write_test : Pipe → Bool
write_test p = not (p.read_refs == 0) && ltb p.len pipe_cap

unfoldable pub sched_fd_pipe_read_ready : ℤ → System → System × Bool
unfolding sched_fd_pipe_id_for_fd sched_pipe_init_once
sched_fd_pipe_read_ready fd = pipe_ready fd type_pipe_read read_test

unfoldable pub sched_fd_pipe_write_ready : ℤ → System → System × Bool
unfolding sched_fd_pipe_id_for_fd sched_pipe_init_once
sched_fd_pipe_write_ready fd = pipe_ready fd type_pipe_write write_test

-- ===== src/Sched/Fd/Pipe.antt =====
-- The reference counts of the pipes: `sched_pipe_init_once`, `sched_pipe_alloc_locked`,
-- `sched_pipe_endpoint_inc` and `sched_pipe_endpoint_dec`. Each runs as one step under `g_pipe_lock`.
use octans.Prelude.{
  ℕ, ◌-◌, Option, none, some, Bool, true, false, ◌&&◌, ◌||◌, not, ltb, ◌==◌, if◌then◌else◌, get_or,
  modify, for_range, find_from, add32,
}
use octans.Sched.Fd.State.{Pipe, Pipes, no_pipe, pipe_max, type_pipe_read, type_pipe_write}

-- The assignments that `init_once` and `alloc_locked` share; the buffer keeps its bytes.
abbrev pub pipe_blank : Bool → Pipe → Pipe
pipe_blank u p = record p { used = u; read_refs = 0; write_refs = 0; head = 0; len = 0 }

unfoldable pub sched_pipe_init_once : Pipes → Pipes
unfolding for_range
sched_pipe_init_once g = if g.inited then g else record {
  inited = true;
  pipes = for_range pipe_max 0 (λ i ps. modify ps i (pipe_blank false) no_pipe) g.pipes;
}

-- The index of the pipe, or `none` where the source returns -1.
unfoldable pub sched_pipe_alloc_locked : Pipes → Pipes × Option ℕ
unfolding find_from
sched_pipe_alloc_locked g = elim (find_from (λ i. not (get_or g.pipes i no_pipe).used) pipe_max 0) [
  | none ↦ (g, none)
  | some i ↦ (record g { pipes = modify g.pipes i (pipe_blank true) no_pipe }, some i)
]

-- `type` is a pipe end.
abbrev pub is_pipe_end : ℕ → Bool
is_pipe_end kind = kind == type_pipe_read || kind == type_pipe_write

-- `pipe_id < SCHED_PIPE_MAX && g_pipes[pipe_id].used != 0u`
abbrev pub pipe_live : Pipes → ℕ → Bool
pipe_live g id = ltb id pipe_max && (get_or g.pipes id no_pipe).used

abbrev pub endpoint_inc : ℕ → Pipe → Pipe
endpoint_inc kind p =
    if kind == type_pipe_read
    then record p { read_refs = add32 p.read_refs 1 }
    else record p { write_refs = add32 p.write_refs 1 }

unfoldable pub sched_pipe_endpoint_inc : ℕ → ℕ → Pipes → Pipes
unfolding sched_pipe_init_once
sched_pipe_endpoint_inc kind id g =
    let g' = sched_pipe_init_once g in
    if not (is_pipe_end kind)
    then g
    else if pipe_live g' id
    then record g' { pipes = modify g'.pipes id (endpoint_inc kind) no_pipe }
    else g'

-- A count of 0 stays; a pipe with no reader and no writer is given back.
abbrev pub endpoint_dec : ℕ → Pipe → Pipe
endpoint_dec kind p =
    let q : Pipe =
      if kind == type_pipe_read
      then record p { read_refs = p.read_refs - 1 }
      else record p { write_refs = p.write_refs - 1 } in
    if q.read_refs == 0 && q.write_refs == 0
    then record q { used = false; head = 0; len = 0 }
    else q

unfoldable pub sched_pipe_endpoint_dec : ℕ → ℕ → Pipes → Pipes
unfolding sched_pipe_init_once
sched_pipe_endpoint_dec kind id g =
    let g' = sched_pipe_init_once g in
    if not (is_pipe_end kind)
    then g
    else if pipe_live g' id
    then record g' { pipes = modify g'.pipes id (endpoint_dec kind) no_pipe }
    else g'

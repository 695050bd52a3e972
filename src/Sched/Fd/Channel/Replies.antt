-- ===== src/Sched/Fd/Channel/Replies.antt =====
-- What `sched_fd_pipe_read` and `sched_fd_pipe_write` answer with the pipe's lock held, against a
-- bounded queue, and what the ready tests promise.
use mathlib.Core.List.{append-nil}
use octans.Prelude.{
  ℕ, zero, suc, ◌-◌, ◌<◌, ◌≡◌, refl, ap, sym, subst, ◌∙◌, ◌≢◌, List, [], ◌∷◌, ◌++◌, length, take,
  drop, min, arith, Bool, true, false, ◌==◌, not, Bool-cases, inl, inr, if◌then◌else◌, length-take,
  nil_of_length, is_ok, get_or-set, ok, err,
}
use octans.Sched.Fd.State.{Pipe, Pipes, Reply, eagain, epipe, pipe_cap, pipe_max, no_pipe}
use octans.Sched.Fd.Pipe.{pipe_live}
use octans.Sched.Fd.PipeIo.{
  pipe_take, pipe_put, pipe_at, with_pipe, pipe_read_locked, pipe_write_locked, read_test,
  write_test,
}
use octans.Sched.Fd.Channel.Queue.{contents, IsRing, length-contents}
use octans.Sched.Fd.Channel.Transfer.{take-Took, put-Wrote}

-- A read of up to `n` bytes from a queue: bytes if there are any; else the end of the stream if no
-- writer is left, and a request to try again if one is.
pub read_spec : ℕ → List ℕ → ℕ → Reply
read_spec n [] writers = if writers == 0 then ok 0 else err eagain
read_spec n (x ∷ xs) writers = ok (min n (length (x ∷ xs)))

-- A write to a queue with `room` places: refused with no reader, and to be tried again with no room.
pub write_spec : ℕ → ℕ → ℕ → Reply
write_spec n room readers =
    if readers == 0 then err epipe else if min n room == 0 then err eagain else ok (min n room)

-- Any other pipe is as before.
abbrev pub OthersSame : ℕ → Pipes → Pipes → Type 0
OthersSame id g h = (j : ℕ) → id ≢ j → pipe_at h j ≡ pipe_at g j

-- The answer of a read that handed out `copied` bytes.
abbrev read_answer : ℕ → Pipe → Reply
read_answer copied q =
    if not (copied == 0) then ok copied else if q.write_refs == 0 then ok 0 else err eagain

-- The queue answers as the loop counted.
read_spec-answer :
    (n : ℕ) (p q : Pipe) (xs bytes : List ℕ)
    → 0 < n
    → bytes ≡ take n xs
    → q.write_refs ≡ p.write_refs
    → read_answer (length bytes) q ≡ read_spec n xs p.write_refs
unfolding read_spec
read_spec-answer zero p q xs bytes h e w = elim h [ ]
read_spec-answer (suc n) p q [] bytes h e w = rw (e, w) refl
read_spec-answer (suc n) p q (x ∷ xs) bytes h e w = rw e (ground (arith, length-take n xs))

-- The answer of a write that stored `count` bytes.
abbrev write_answer : ℕ → ℕ → Reply
write_answer count readers =
    if readers == 0 then err epipe else if not (count == 0) then ok count else err eagain

module _ (g : Pipes) (id : ℕ) (sized : length g.pipes ≡ pipe_max)
    (live : pipe_live g id ≡ true) where
  -- A write-back of the pipe's slot is seen there, and nowhere else.
  pipe_at-with_pipe : (p : Pipe) → pipe_at (with_pipe id p g) id ≡ p
  pipe_at-with_pipe p = ground (arith, get_or-set g.pipes id id p no_pipe, sized)

  others-with_pipe : (p : Pipe) → OthersSame id g (with_pipe id p g)
  others-with_pipe p j ne = ground (arith, get_or-set g.pipes id j p no_pipe, sized)

  pipe_read_locked_lem :
      (n : ℕ)
      → let (q, bytes) = pipe_take n (pipe_at g id) in
        pipe_read_locked id n g ≡ (with_pipe id q g, read_answer (length bytes) q, bytes)
  unfolding pipe_read_locked
  pipe_read_locked_lem n =
      let (q, bytes) = pipe_take n (pipe_at g id) in
      elim (Bool-cases (length bytes == 0)) [
        | inr some_read ↦ rw (live, some_read) refl
        | inl nothing ↦
            let nil : bytes ≡ [] = nil_of_length bytes (ground arith) in
            elim (Bool-cases (q.write_refs == 0)) [
              | inl closed ↦ rw (live, nil, closed) refl
              | inr opened ↦ rw (live, nil, opened) refl
            ]
      ]

  -- A read of up to `n` bytes, `n` not 0, from a live pipe in order answers as the queue of its
  -- bytes does, hands out the oldest bytes in order, leaves the others, and touches no other pipe.
  pub pipe_read_refines :
      (n : ℕ)
      → 0 < n
      → IsRing (pipe_at g id)
      → let (h, reply, bytes) = pipe_read_locked id n g in
        (reply ≡ read_spec n (contents (pipe_at g id)) (pipe_at g id).write_refs)
        × (bytes ≡ take n (contents (pipe_at g id)))
        × (contents (pipe_at h id) ≡ drop n (contents (pipe_at g id)))
        × IsRing (pipe_at h id)
        × OthersSame id g h
  pipe_read_refines n pos_n v =
      let p = pipe_at g id in
      let (q, bytes) = pipe_take n p in
      let t = take-Took n p v in
      let back = pipe_at-with_pipe q in
      rw (pipe_read_locked_lem n) (
        read_spec-answer n p q (contents p) bytes pos_n t.bytes t.ends.writers_same,
        t.bytes,
        ap contents back ∙ t.rest,
        subst IsRing (sym back) t.ring,
        others-with_pipe q,
      )

  -- A write of bytes to a live pipe in order that has a reader stores as many as there is room for
  -- behind the others and in order, answers with their number, or to try again where that is 0, and
  -- touches no other pipe; with no reader it is refused.
  pub pipe_write_refines :
      (src : List ℕ)
      → IsRing (pipe_at g id)
      → let p = pipe_at g id in
        let room = pipe_cap - length (contents p) in
        let (h, reply) = pipe_write_locked id src g in
        (reply ≡ write_spec (length src) room p.read_refs)
        × (contents (pipe_at h id)
            ≡ contents p ++ (if p.read_refs == 0 then [] else take (min (length src) room) src))
        × IsRing (pipe_at h id)
        × OthersSame id g h
  unfolding pipe_write_locked write_spec
  pipe_write_refines src v =
      let p = pipe_at g id in
      let (q, count) = pipe_put src p in
      let w = put-Wrote src p v in
      let back = pipe_at-with_pipe q in
      let counted : count ≡ min (length src) (pipe_cap - length (contents p)) =
        w.count ∙ ap (λ k. min (length src) (pipe_cap - k)) (sym (length-contents p)) in
      elim (Bool-cases (p.read_refs == 0)) [
        | inl unread ↦ rw (live, unread) (refl, sym (append-nil (contents p)), v, λ j ne. refl)
        | inr read ↦ elim (Bool-cases (count == 0)) [
          | inl full ↦
              rw (live, read, full, ← counted, full)
                (
                  refl,
                  ap contents back ∙ w.bytes,
                  subst IsRing (sym back) w.ring,
                  others-with_pipe q,
                )
          | inr stored ↦
              rw (live, read, stored, ← counted, stored)
                (
                  refl,
                  ap contents back ∙ w.bytes,
                  subst IsRing (sym back) w.ring,
                  others-with_pipe q,
                )
        ]
      ]

-- The reply that asks to try again.
pub would_block : Reply → Bool
would_block (err eagain) = true
would_block (err e) = false
would_block (ok n) = false

read_spec-would_block :
    (n : ℕ) (p : Pipe) (xs : List ℕ)
    → 0 < n
    → length xs ≡ p.len
    → would_block (read_spec n xs p.write_refs) ≡ not (read_test p)
unfolding read_spec would_block
read_spec-would_block n p [] h e = ground arith
read_spec-would_block n p (x ∷ xs) h e = ground arith

module _ (g : Pipes) (id : ℕ) (sized : length g.pipes ≡ pipe_max)
    (live : pipe_live g id ≡ true) where
  -- The test of `sched_fd_pipe_read_ready` fails exactly when a read of a live pipe in order, of any
  -- number of bytes but 0, would be told to try again.
  pub read_ready_exact :
      (n : ℕ)
      → 0 < n
      → IsRing (pipe_at g id)
      → would_block (pipe_read_locked id n g).1 ≡ not (read_test (pipe_at g id))
  read_ready_exact n pos_n v =
      let p = pipe_at g id in
      rw ((pipe_read_refines g id sized live n pos_n v).0)
        (read_spec-would_block n p (contents p) pos_n (length-contents p))

  -- The test of `sched_fd_pipe_write_ready` passes exactly when a write of some bytes to a live pipe
  -- in order would store at least one.
  pub write_ready_exact :
      (src : List ℕ)
      → 0 < length src
      → IsRing (pipe_at g id)
      → is_ok (pipe_write_locked id src g).1 ≡ write_test (pipe_at g id)
  unfolding write_spec
  write_ready_exact src some_src v =
      let p = pipe_at g id in
      rw ((pipe_write_refines g id sized live src v).0)
        (ground (arith, length-contents p, v.len_in))

-- ===== src/Sched/Fd/Channel/Transfer.antt =====
-- The loops of `sched_fd_pipe_read` and `sched_fd_pipe_write` against the queue of the bytes.
use mathlib.Core.List.{append-nil, append_assoc}
use octans.Prelude.{
  ℕ, zero, suc, ◌-◌, ◌<◌, ◌≡◌, refl, ap, sym, ◌∙◌, List, [], ◌∷◌, ◌++◌, length, get_or, take, drop,
  min, arith, ◌==◌, ltb, Bool-cases, inl, inr, take-append-drop, nil_of_length,
}
use octans.Sched.Fd.State.{Pipe, pipe_cap}
use octans.Sched.Fd.PipeIo.{pipe_push, pipe_pop, pipe_take, pipe_put}
use octans.Sched.Fd.Channel.Queue.{
  contents, IsRing, length-contents, push-IsRing, pop-IsRing, contents-push, contents-pop,
}

-- The fields that a transfer leaves alone.
pub record SameEnds (p q : Pipe) : Type 0 where
  pub used_same : q.used ≡ p.used
  pub readers_same : q.read_refs ≡ p.read_refs
  pub writers_same : q.write_refs ≡ p.write_refs

-- What a read of up to `n` bytes does: the oldest bytes go out in order, the others stay.
pub record Took (n : ℕ) (p : Pipe) (out : Pipe × List ℕ) : Type 0 where
  pub ring : IsRing out.0
  pub ends : SameEnds p out.0
  pub bytes : out.1 ≡ take n (contents p)
  pub rest : contents out.0 ≡ drop n (contents p)

contents-empty : (p : Pipe) → p.len ≡ 0 → contents p ≡ []
contents-empty p e = nil_of_length (contents p) (length-contents p ∙ e)

take_nil {ℓ} : {A : Type ℓ} (n : ℕ) → take {A = A} n [] ≡ []
take_nil zero = refl
take_nil (suc n) = refl

drop_nil {ℓ} : {A : Type ℓ} (n : ℕ) → drop {A = A} n [] ≡ []
drop_nil zero = refl
drop_nil (suc n) = refl

pub take-Took : (n : ℕ) (p : Pipe) → IsRing p → Took n p (pipe_take n p)
unfolding pipe_take
take-Took zero p v = record {
  ring = v;
  ends = record { used_same = refl; readers_same = refl; writers_same = refl };
  bytes = refl;
  rest = refl;
}
take-Took (suc n) p v = elim (Bool-cases (p.len == 0)) [
  | inl empty ↦
      let nil = contents-empty p (ground arith) in
      rw empty (record {
        ring = v;
        ends = record { used_same = refl; readers_same = refl; writers_same = refl };
        bytes = rw nil refl;
        rest = rw nil refl;
      })
  | inr full ↦
      let ih = take-Took n (pipe_pop p) (pop-IsRing p v) in
      let split = contents-pop p v (ground arith) in
      rw full (record {
        ring = ih.ring;
        ends = record {
          used_same = ih.ends.used_same;
          readers_same = ih.ends.readers_same;
          writers_same = ih.ends.writers_same;
        };
        bytes = rw split (ap (◌∷◌ (get_or p.buf p.head 0)) ih.bytes);
        rest = rw split ih.rest;
      })
]

-- What a write of `src` does: as many bytes as there is room for go behind the others, in order.
pub record Wrote (src : List ℕ) (p : Pipe) (out : Pipe × ℕ) : Type 0 where
  pub ring : IsRing out.0
  pub ends : SameEnds p out.0
  pub count : out.1 ≡ min (length src) (pipe_cap - p.len)
  pub bytes : contents out.0 ≡ contents p ++ take out.1 src

pub put-Wrote : (src : List ℕ) (p : Pipe) → IsRing p → Wrote src p (pipe_put src p)
unfolding pipe_put
put-Wrote [] p v = record {
  ring = v;
  ends = record { used_same = refl; readers_same = refl; writers_same = refl };
  count = omega arith;
  bytes = sym (append-nil (contents p));
}
put-Wrote (b ∷ bs) p v = elim (Bool-cases (ltb p.len pipe_cap)) [
  | inr full ↦ rw full (record {
    ring = v;
    ends = record { used_same = refl; readers_same = refl; writers_same = refl };
    count = ground arith;
    bytes = sym (append-nil (contents p));
  })
  | inl room ↦
      let below : p.len < pipe_cap = ground arith in
      let ih = put-Wrote bs (pipe_push b p) (push-IsRing b p v below) in
      rw room (record {
        ring = ih.ring;
        ends = record {
          used_same = ih.ends.used_same;
          readers_same = ih.ends.readers_same;
          writers_same = ih.ends.writers_same;
        };
        count = omega (arith, ih.count);
        bytes = ih.bytes ∙ rw (contents-push b p v below, append_assoc (contents p) (b ∷ [])) refl;
      })
]

-- One transfer on a pipe.
pub data Transfer : Type 0 where
  reading : ℕ → Transfer
  writing : List ℕ → Transfer

-- The pipe after a sequence of transfers, the bytes that came out, and those that went in.
pub transfer : List Transfer → Pipe → Pipe × List ℕ × List ℕ
unfolding pipe_take pipe_put
transfer [] p = (p, [], [])
transfer (reading n ∷ ts) p =
    let (q, bytes) = pipe_take n p in
    let (r, gone, come) = transfer ts q in (r, bytes ++ gone, come)
transfer (writing src ∷ ts) p =
    let (q, count) = pipe_put src p in
    let (r, gone, come) = transfer ts q in (r, gone, take count src ++ come)

-- On a pipe in order, any sequence of reads and writes loses, invents and reorders no byte: what
-- came out, followed by what is still there, is what was there followed by what went in. The pipe
-- stays in order.
pub transfer-contents :
    (ts : List Transfer) (p : Pipe)
    → IsRing p
    → let (q, gone, come) = transfer ts p in (gone ++ contents q ≡ contents p ++ come) × IsRing q
unfolding transfer
transfer-contents [] p v = (sym (append-nil (contents p)), v)
transfer-contents (reading n ∷ ts) p v =
    let t = take-Took n p v in
    let q = (pipe_take n p).0 in
    let out = (pipe_take n p).1 in
    let (kept, ring) = transfer-contents ts q t.ring in
    let (r, gone, come) = transfer ts q in
    let whole : out ++ contents q ≡ contents p =
      rw (t.bytes, t.rest) (take-append-drop n (contents p)) in
    (
      append_assoc out gone (contents r)
          ∙ ap (◌++◌ out) kept
          ∙ sym (append_assoc out (contents q) come)
          ∙ ap (λ k. k ++ come) whole,
      ring,
    )
transfer-contents (writing src ∷ ts) p v =
    let w = put-Wrote src p v in
    let (q, count) = pipe_put src p in
    let (kept, ring) = transfer-contents ts q w.ring in
    let come = (transfer ts q).2 in
    (kept ∙ ap (λ k. k ++ come) w.bytes ∙ append_assoc (contents p) (take count src) come, ring)

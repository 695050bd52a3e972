-- ===== src/Sched/Fd/Channel/Queue.antt =====
-- The bytes that a pipe holds, oldest first, and how one push and one pop change them.
use octans.Prelude.{
  ℕ, zero, suc, ◌+◌, ◌-◌, ◌%◌, ◌^◌, ap₂, ◌<◌, ◌≤◌, ◌≡◌, refl, ap, ◌∙◌, ◌≢◌, List, [], ◌∷◌, ◌++◌,
  length, get_or, set, get_or-set_self, get_or-set_ne, length-set, arith,
}
use octans.Sched.Fd.State.{Pipe, pipe_cap}
use octans.Sched.Fd.PipeIo.{pipe_push, pipe_pop}

-- `n` bytes of the ring from position `h` on; positions go round at the capacity.
pub queued : List ℕ → ℕ → ℕ → List ℕ
queued buf h zero = []
queued buf h (suc n) = get_or buf (h % pipe_cap) 0 ∷ queued buf (h + 1) n

pub contents : Pipe → List ℕ
unfolding queued
contents p = queued p.buf p.head p.len

pub record IsRing (p : Pipe) : Type 0 where
  pub storage : length p.buf ≡ pipe_cap
  pub head_in : p.head < pipe_cap
  pub len_in : p.len ≤ pipe_cap

queued_congr :
    (buf : List ℕ) (h h' n : ℕ) → h % pipe_cap ≡ h' % pipe_cap → queued buf h n ≡ queued buf h' n
unfolding queued
queued_congr buf h h' zero e = refl
queued_congr buf h h' (suc n) e = rw (e, queued_congr buf (h + 1) (h' + 1) n (omega arith))

-- A write past the bytes, short of a whole turn, leaves them.
queued-set :
    (buf : List ℕ) (h n d i v : ℕ)
    → n + d < pipe_cap
    → i ≡ (h + n + d) % pipe_cap
    → queued (set buf i v) h n ≡ queued buf h n
unfolding queued
queued-set buf h zero d i v room e = refl
queued-set buf h (suc n) d i v room e = rw (
  get_or-set_ne buf i (h % pipe_cap) v 0 (omega arith),
  queued-set buf (h + 1) n d i v (omega arith) (omega arith),
)

queued_snoc :
    (buf : List ℕ) (h n : ℕ)
    → queued buf h (suc n) ≡ queued buf h n ++ get_or buf ((h + n) % pipe_cap) 0 ∷ []
unfolding queued
queued_snoc buf h zero = ap (λ k. get_or buf k 0 ∷ []) (omega arith)
queued_snoc buf h (suc n) = ap (◌∷◌ (get_or buf (h % pipe_cap) 0)) (
    queued_snoc buf (h + 1) n ∙ ap (λ k. queued buf (h + 1) n ++ get_or buf k 0 ∷ []) (omega arith))

pub length-queued : (buf : List ℕ) (h n : ℕ) → length (queued buf h n) ≡ n
unfolding queued
length-queued buf h zero = refl
length-queued buf h (suc n) = ap suc (length-queued buf (h + 1) n)

pub length-contents : (p : Pipe) → length (contents p) ≡ p.len
unfolding contents
length-contents p = length-queued p.buf p.head p.len

pub push-IsRing : (b : ℕ) (p : Pipe) → IsRing p → p.len < pipe_cap → IsRing (pipe_push b p)
push-IsRing b p v room = record {
  storage = rw length-set v.storage;
  head_in = v.head_in;
  len_in = omega arith;
}

pub pop-IsRing : (p : Pipe) → IsRing p → IsRing (pipe_pop p)
pop-IsRing p v = record { storage = v.storage; head_in = omega arith; len_in = omega arith }

-- A push puts its byte behind the others.
pub contents-push :
    (b : ℕ) (p : Pipe)
    → IsRing p
    → p.len < pipe_cap
    → contents (pipe_push b p) ≡ contents p ++ b ∷ []
unfolding contents
contents-push b p v room =
    let i = (p.head + p.len) % 2 ^ 32 % pipe_cap in
    let grown : (p.len + 1) % 2 ^ 32 ≡ suc p.len = omega arith in
    let place : i ≡ (p.head + p.len) % pipe_cap = omega arith in
    rw (grown, queued_snoc (set p.buf i b) p.head p.len, ← place)
      (rw (
        queued-set p.buf p.head p.len 0 i b (omega arith) (omega arith),
        get_or-set_self p.buf i b 0 (omega arith),
      ))

-- A pop takes the oldest byte.
pub contents-pop :
    (p : Pipe) → IsRing p → p.len ≢ 0 → contents p ≡ get_or p.buf p.head 0 ∷ contents (pipe_pop p)
unfolding contents
contents-pop p v full =
    let some_left : p.len ≡ suc (p.len - 1) = omega arith in
    let at : p.head % pipe_cap ≡ p.head = omega arith in
    ap (queued p.buf p.head) some_left
    ∙ ap₂ (λ k r. get_or p.buf k 0 ∷ r) at
        (queued_congr p.buf (p.head + 1) ((p.head + 1) % 2 ^ 32 % pipe_cap) (p.len - 1)
          (omega arith))

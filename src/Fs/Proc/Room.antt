-- ===== src/Fs/Proc/Room.antt =====
-- Two buffers of src/fs_proc.c under the same prints: the smaller holds the start of the larger.
use octans.Prelude.{
  ℕ, zero, suc, ◌-◌, ◌<◌, ◌≤◌, ◌≡◌, refl, sym, ap, ◌∙◌, ℤ, pos, negsuc, String, List, [], ◌∷◌, ◌++◌,
  min, true, inl, inr, Bool-cases, ltb, length, take, add32, u32_max, arith, length-take,
  length-append, take_all,
}
use octans.Fs.Proc.Buffer.{
  Buffer, proc_buf_putc, proc_buf_bytes, proc_buf_u64, proc_buf_i32, proc_buf_fixed3,
  proc_buf_kib_line,
}

-- `small`, of `c` bytes, holds the start of what `large` holds, all of it where it fits, and keeps room for the 0.
pub record IsCut (c : ℕ) (small large : Buffer) : Type 0 where
  pub kept : small.capacity ≡ c
  pub below : length small.bytes < small.capacity
  pub smaller : small.capacity ≤ large.capacity
  pub word : large.capacity ≤ u32_max
  pub start : small.bytes ≡ take (small.capacity - 1) large.bytes

take_short : (n : ℕ) (xs : List ℕ) → length (take n xs) < n → take n xs ≡ xs
take_short n xs h = take_all n xs (omega (arith, length-take n xs))

take-append_long : (n : ℕ) (xs ys : List ℕ) → n ≤ length xs → take n (xs ++ ys) ≡ take n xs
take-append_long zero xs ys h = refl
take-append_long (suc n) [] ys h = absurd (omega arith)
take-append_long (suc n) (x ∷ xs) ys h = ap (◌∷◌ x) (take-append_long n xs ys (omega arith))

-- One byte more in both, where the smaller one has room and so holds all of the larger one.
take_room :
    (n c : ℕ) (xs : List ℕ)
    → length (take n xs) < n
    → take n xs ++ (c ∷ []) ≡ take n (xs ++ (c ∷ []))
take_room n c xs h =
    let whole = take_short n xs h in
    ap (λ ys. ys ++ (c ∷ [])) whole
    ∙ sym (take_all n (xs ++ (c ∷ [])) (omega (arith, length-append xs (c ∷ []), ap length whole)))

pub proc_buf_putc-IsCut :
    (c : ℕ) (cap : ℕ) (o p : Buffer)
    → IsCut cap o p
    → IsCut cap (proc_buf_putc c o) (proc_buf_putc c p)
unfolding proc_buf_putc
proc_buf_putc-IsCut c cap o p h =
    let room = ltb (add32 (length o.bytes) 1) o.capacity in
    let room' = ltb (add32 (length p.bytes) 1) p.capacity in
    let n = o.capacity - 1 in
    let len : length o.bytes ≡ min n (length p.bytes) = ap length h.start ∙ length-take n p.bytes in
    elim (Bool-cases room) [
      | inl e ↦
          let e' : room' ≡ true = ground (arith, h.below, h.smaller, h.word, len) in
          rw (e, e')
            (record {
              below = ground (arith, length-append o.bytes (c ∷ []), h.below, h.word, h.smaller, e);
              kept = h.kept;
              smaller = h.smaller;
              word = h.word;
              start =
                  ap (λ ys. ys ++ (c ∷ [])) h.start
                  ∙ take_room n c p.bytes
                      (ground (arith, h.below, h.word, h.smaller, e, length-take n p.bytes, len));
            })
      | inr e ↦
          let full : n ≤ length p.bytes = ground (arith, h.below, h.word, h.smaller, len) in
          elim (Bool-cases room') [
            | inl e' ↦
                rw (e, e')
                  (record {
                    below = h.below;
                    kept = h.kept;
                    smaller = h.smaller;
                    word = h.word;
                    start = h.start ∙ sym (take-append_long n p.bytes (c ∷ []) full);
                  })
            | inr e' ↦ rw (e, e') h
          ]
    ]

pub proc_buf_bytes-IsCut :
    (text : List ℕ) (cap : ℕ) (o p : Buffer)
    → IsCut cap o p
    → IsCut cap (proc_buf_bytes text o) (proc_buf_bytes text p)
unfolding proc_buf_bytes
proc_buf_bytes-IsCut [] cap o p h = h
proc_buf_bytes-IsCut (c ∷ text) cap o p h =
    proc_buf_bytes-IsCut text cap (proc_buf_putc c o) (proc_buf_putc c p)
      (proc_buf_putc-IsCut c cap o p h)

pub proc_buf_u64-IsCut :
    (n : ℕ) (cap : ℕ) (o p : Buffer)
    → IsCut cap o p
    → IsCut cap (proc_buf_u64 n o) (proc_buf_u64 n p)
unfolding proc_buf_u64
proc_buf_u64-IsCut n = proc_buf_bytes-IsCut _

pub proc_buf_i32-IsCut :
    (n : ℤ) (cap : ℕ) (o p : Buffer)
    → IsCut cap o p
    → IsCut cap (proc_buf_i32 n o) (proc_buf_i32 n p)
unfolding proc_buf_i32
proc_buf_i32-IsCut (pos n) cap o p h = proc_buf_u64-IsCut n cap o p h
proc_buf_i32-IsCut (negsuc n) cap o p h = search (proc_buf_putc-IsCut, proc_buf_u64-IsCut)

pub ruleset basic_prints =
    (proc_buf_putc-IsCut, proc_buf_bytes-IsCut, proc_buf_u64-IsCut, proc_buf_i32-IsCut)

pub proc_buf_fixed3-IsCut :
    (n : ℕ) (cap : ℕ) (o p : Buffer)
    → IsCut cap o p
    → IsCut cap (proc_buf_fixed3 n o) (proc_buf_fixed3 n p)
unfolding proc_buf_fixed3
proc_buf_fixed3-IsCut n cap o p h = search basic_prints depth 60

pub proc_buf_kib_line-IsCut :
    (name : String) (n : ℕ) (cap : ℕ) (o p : Buffer)
    → IsCut cap o p
    → IsCut cap (proc_buf_kib_line name n o) (proc_buf_kib_line name n p)
unfolding proc_buf_kib_line
proc_buf_kib_line-IsCut name n cap o p h = search basic_prints depth 60

pub ruleset prints = (basic_prints, proc_buf_fixed3-IsCut, proc_buf_kib_line-IsCut)

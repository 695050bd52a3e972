-- ===== src/Fs/Proc/Buffer.antt =====
-- `proc_buffer_t` of src/fs_proc.c and the routines that print into it.
use octans.Prelude.{
  ℕ, zero, suc, ◌+◌, ◌/◌, ◌%◌, ℤ, pos, negsuc, String, codes, List, [], ◌∷◌, ◌++◌, ltb, ◌==◌,
  if◌then◌else◌, length, add32,
}

-- The bytes up to `length` in the array, behind which a 0 stands.
pub record Buffer : Type 0 where
  pub capacity : ℕ
  pub bytes : List ℕ

abbrev pub empty_buffer : ℕ → Buffer
empty_buffer capacity = record { capacity = capacity; bytes = [] }

-- A routine with its arguments, which waits for `out`.
abbrev pub Fill : Type 0
Fill = Buffer → Buffer

-- One call behind the other, on the same `out`.
infixl 5 ◌▷◌
abbrev pub ◌▷◌ : Fill → Fill → Fill
(f ▷ g) out = g (f out)

unfoldable pub proc_buf_putc : ℕ → Fill
proc_buf_putc c out =
    if ltb (add32 (length out.bytes) 1) out.capacity
    then record out { bytes = out.bytes ++ (c ∷ []) }
    else out

unfoldable pub proc_buf_bytes : List ℕ → Fill
proc_buf_bytes [] out = out
proc_buf_bytes (c ∷ text) out = proc_buf_bytes text (proc_buf_putc c out)

abbrev pub proc_buf_puts : String → Fill
proc_buf_puts text = proc_buf_bytes (codes text)

-- The loop over `digits[24]`, whose array is read from its end.
unfoldable pub digit_loop : ℕ → ℕ → List ℕ → List ℕ
digit_loop zero value digits = digits
digit_loop (suc left) value digits =
    if value == 0 then digits else digit_loop left (value / 10) ((b'0' + value % 10) ∷ digits)

-- The bytes that `proc_buf_u64` prints.
unfoldable pub decimal : ℕ → List ℕ
decimal value = if value == 0 then b'0' ∷ [] else digit_loop 24 value []

unfoldable pub proc_buf_u64 : ℕ → Fill
proc_buf_u64 value = proc_buf_bytes (decimal value)

unfoldable pub proc_buf_i32 : ℤ → Fill
proc_buf_i32 (negsuc n) = proc_buf_putc b'-' ▷ proc_buf_u64 (add32 n 1)
proc_buf_i32 (pos n) = proc_buf_u64 n

-- '0' + (value / unit) % 10
abbrev pub digit_at : ℕ → ℕ → ℕ
digit_at unit value = b'0' + value / unit % 10

unfoldable pub proc_buf_fixed3 : ℕ → Fill
proc_buf_fixed3 milli_value =
    proc_buf_u64 (milli_value / 1000)
    ▷ proc_buf_putc b'.'
    ▷ proc_buf_putc (digit_at 100 milli_value)
    ▷ proc_buf_putc (digit_at 10 milli_value)
    ▷ proc_buf_putc (digit_at 1 milli_value)

unfoldable pub proc_buf_kib_line : String → ℕ → Fill
proc_buf_kib_line name amount =
    proc_buf_puts name ▷ proc_buf_puts ": " ▷ proc_buf_u64 (amount / 1024) ▷ proc_buf_puts " kB\n"

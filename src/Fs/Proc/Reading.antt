-- ===== src/Fs/Proc/Reading.antt =====
-- What a program gets that calls `fs_proc_read_fd` until the answer is 0. The content is built anew
-- in every call, but the size of the open file is that of the content when it was opened.
use octans.Prelude.{
  ℕ, zero, suc, ◌+◌, ◌-◌, ◌<◌, ◌≤◌, ◌≡◌, refl, sym, ap, subst, ◌∙◌, pos, List, [], ◌∷◌, ◌++◌, true,
  false, none, some, inl, inr, Bool-cases, ltb, leb, ◌==◌, if◌then◌else◌, min, length, take, drop,
  take-append-drop, length-take, length-append, ok, u32_max, arith,
}
use octans.Sched.Fd.State.{Ofile, Slot, Pipes, System}
use octans.Fs.Base.{backend_proc}
use octans.Fs.Proc.Build.{Kernel}
use octans.Fs.Proc.Handle.{IsOpen, moved_to, running_on, regular_get-IsOpen, regular_advance-IsOpen}
use octans.Fs.Proc.Ops.{Filled, content, give_bytes, read_found, fs_proc_read_fd}

-- The bytes of up to `fuel` calls, each of which asks for `len` bytes.
unfoldable pub read_all : ℕ → ℕ → ℕ → Kernel → System → List ℕ
read_all zero fd len k s = []
read_all (suc fuel) fd len k s =
    let (s', code, found) = fs_proc_read_fd (pos fd) true len k s in
    let rest = read_all fuel fd len k s' in elim found [ none ↦ [] | some bytes ↦ bytes ++ rest ]

-- What follows the answer to one call.
continue : ℕ → ℕ → ℕ → Kernel → Filled (List ℕ) → List ℕ
continue fuel fd len k (s, code, found) = elim found [
  | none ↦ []
  | some bytes ↦ bytes ++ read_all fuel fd len k s
]

-- A descriptor of a file of /proc.
pub record IsFile (f : Ofile) : Type 0 where
  pub backend : f.fs_backend ≡ backend_proc
  pub is_file : f.file_is_dir ≡ false

drop_nil : (n : ℕ) → ◌≡◌ {A = List ℕ} (drop n []) []
drop_nil zero = refl
drop_nil (suc n) = refl

drop-drop : (a b : ℕ) (xs : List ℕ) → drop b (drop a xs) ≡ drop (a + b) xs
drop-drop zero b xs = let same : b ≡ zero + b = omega arith in ap (λ n. drop n xs) same
drop-drop (suc a) b [] = drop_nil b ∙ sym (drop_nil (suc a + b))
drop-drop (suc a) b (x ∷ xs) =
    let same : suc (a + b) ≡ suc a + b = omega arith in
    drop-drop a b xs ∙ ap (λ n. drop n (x ∷ xs)) same

length-drop : (n : ℕ) (xs : List ℕ) → length (drop n xs) ≡ length xs - n
length-drop zero xs = omega arith
length-drop (suc n) [] = omega arith
length-drop (suc n) (x ∷ xs) = omega (arith, length-drop n xs)

drop_end : (a : ℕ) (xs : List ℕ) → length xs ≤ a → drop a xs ≡ []
drop_end zero [] h = refl
drop_end zero (x ∷ xs) h = absurd (omega arith)
drop_end (suc a) [] h = refl
drop_end (suc a) (x ∷ xs) h = drop_end a xs (omega arith)

read-IsFile :
    (fd len : ℕ) (f : Ofile) (slot : Slot) (pipes : Pipes) (k : Kernel)
    → IsOpen fd f slot
    → IsFile f
    → 0 < len
    → fs_proc_read_fd (pos fd) true len k (running_on slot pipes)
      ≡ give_bytes (pos fd) len f.file_offset (content f.file_id k) (running_on slot pipes)
unfolding fs_proc_read_fd read_found
read-IsFile fd len f slot pipes k h r some_len =
    let asks : (len == 0) ≡ false = ground arith in
    rw asks (ap (read_found (pos fd) len k) (regular_get-IsOpen fd f slot pipes h) ∙ met)
  where
    met :
        read_found (pos fd) len k (running_on slot pipes, ok f)
        ≡ give_bytes (pos fd) len f.file_offset (content f.file_id k) (running_on slot pipes)
    met = rw (r.backend, r.is_file, read_found) refl

-- How many bytes a call gives.
given : ℕ → ℕ → ℕ → ℕ
given len size offset = if ltb (size - offset) len then size - offset else len

module _ (fd len : ℕ) (pipes : Pipes) (k : Kernel) (some_len : 0 < len) (word : len ≤ u32_max) where
  -- One call behind whose offset there is something left.
  read_step :
      (fuel : ℕ) (f : Ofile) (slot : Slot)
      → IsOpen fd f slot
      → IsFile f
      → f.file_offset < length (content f.file_id k)
      → let bytes = content f.file_id k in
        let n = given len (length bytes) f.file_offset in
        (slot' : Slot) × IsOpen fd (moved_to (min (f.file_offset + n) f.file_size) f) slot'
        × (read_all (suc fuel) fd len k (running_on slot pipes)
            ≡ take n (drop f.file_offset bytes) ++ read_all fuel fd len k (running_on slot' pipes))
  unfolding read_all continue give_bytes given
  read_step fuel f slot h r left =
      let bytes = content f.file_id k in
      let n = given len (length bytes) f.file_offset in
      let (slot', open', moved) =
        regular_advance-IsOpen fd f slot pipes h n (ground (arith, word)) in
      let more : leb (length bytes) f.file_offset ≡ false = ground arith in
      (
        slot',
        open',
        ap (continue fuel fd len k) (read-IsFile fd len f slot pipes k h r some_len)
            ∙ rw more (
                ap (λ (s : System). take n (drop f.file_offset bytes) ++ read_all fuel fd len k s)
                  moved),
      )

  read_end :
      (fuel : ℕ) (f : Ofile) (slot : Slot)
      → IsOpen fd f slot
      → IsFile f
      → length (content f.file_id k) ≤ f.file_offset
      → read_all (suc fuel) fd len k (running_on slot pipes) ≡ []
  unfolding read_all continue give_bytes
  read_end fuel f slot h r over =
      let past : leb (length (content f.file_id k)) f.file_offset ≡ true = ground arith in
      ap (continue fuel fd len k) (read-IsFile fd len f slot pipes k h r some_len) ∙ rw past refl

  -- Reading on from an offset, while the content has the size of the file.
  read_on :
      (fuel : ℕ) (f : Ofile) (slot : Slot)
      → IsOpen fd f slot
      → IsFile f
      → f.file_size ≡ length (content f.file_id k)
      → f.file_size - f.file_offset ≤ fuel
      → read_all fuel fd len k (running_on slot pipes) ≡ drop f.file_offset (content f.file_id k)
  unfolding read_all given
  read_on zero f slot h r size bound =
      sym (drop_end f.file_offset (content f.file_id k) (omega (arith, size)))
  read_on (suc fuel) f slot h r size bound =
      let bytes = content f.file_id k in
      let n = given len (length bytes) f.file_offset in
      elim (Bool-cases (leb (length bytes) f.file_offset)) [
        | inl e ↦
            let over : length bytes ≤ f.file_offset = ground (arith, e) in
            read_end fuel f slot h r over ∙ sym (drop_end f.file_offset bytes over)
        | inr e ↦
            let left : f.file_offset < length bytes = ground (arith, e) in
            let (slot', open', step) = read_step fuel f slot h r left in
            let next : min (f.file_offset + n) f.file_size ≡ f.file_offset + n =
              ground (arith, size) in
            let fewer : f.file_size - min (f.file_offset + n) f.file_size ≤ fuel =
              ground (arith, next) in
            let rest =
              read_on fuel (moved_to _ f) slot' open'
                (record { backend = r.backend; is_file = r.is_file }) size fewer in
            step
            ∙ ap (λ (bs : List ℕ). take n (drop f.file_offset bytes) ++ bs)
                (rest ∙ ap (λ (m : ℕ). drop m bytes) next ∙ sym (drop-drop f.file_offset n bytes))
            ∙ take-append-drop n (drop f.file_offset bytes)
      ]

  -- A program that stands at the start of a file of /proc and reads it in pieces of any length gets
  -- the content of the file, each byte once and in order, and then the end, where the content is of
  -- the size that it had when the file was opened, and it makes as many calls as there are bytes, or
  -- more.
  pub read_all-content :
      (fuel : ℕ) (f : Ofile) (slot : Slot)
      → IsOpen fd f slot
      → IsFile f
      → f.file_size ≡ length (content f.file_id k)
      → f.file_offset ≡ 0
      → f.file_size ≤ fuel
      → read_all fuel fd len k (running_on slot pipes) ≡ content f.file_id k
  read_all-content fuel f slot h r size start bound =
      read_on fuel f slot h r size (omega (arith, start, bound))
      ∙ ap (λ (m : ℕ). drop m (content f.file_id k)) start

  -- Where the content of a file of /proc has become longer than it was when the file was opened, a
  -- program that reads on from there never sees the end: however many calls it makes, each gives at
  -- least one byte, the bytes behind the old size over and over.
  pub read_all-endless :
      (fuel : ℕ) (f : Ofile) (slot : Slot)
      → IsOpen fd f slot
      → IsFile f
      → f.file_size < length (content f.file_id k)
      → f.file_offset ≡ f.file_size
      → fuel ≤ length (read_all fuel fd len k (running_on slot pipes))
  unfolding given
  read_all-endless zero f slot h r grown stands = omega arith
  read_all-endless (suc fuel) f slot h r grown stands =
      let bytes = content f.file_id k in
      let n = given len (length bytes) f.file_offset in
      let (slot', open', step) = read_step fuel f slot h r (omega (arith, grown, stands)) in
      let stays : min (f.file_offset + n) f.file_size ≡ f.file_size = omega (arith, stands) in
      let again =
        read_all-endless fuel (moved_to _ f) slot' open'
          (record { backend = r.backend; is_file = r.is_file }) grown stays in
      let some_byte : 0 < length (take n (drop f.file_offset bytes)) = ground (
        arith,
        length-take n (drop f.file_offset bytes),
        length-drop f.file_offset bytes,
        grown,
        stands,
      ) in
      subst (λ (bs : List ℕ). suc fuel ≤ length bs) (sym step)
        (omega (
          arith,
          again,
          some_byte,
          length-append (take n (drop f.file_offset bytes))
              (read_all fuel fd len k (running_on slot' pipes)),
        ))

-- ===== src/Mmu/Rights.antt =====
-- The flags that `mmu_map_identity_page` of src/mmu.c collects from a table.
use octans.Prelude.{
  ℕ, ◌+◌, ◌*◌, ◌/◌, ◌%◌, ◌^◌, ◌≡◌, refl, ap, ◌∙◌, List, [], ◌∷◌, Bool, true, false, ◌&&◌, ◌||◌, inl,
  inr, Bool-cases, ◌==◌, bit_at, zip_bits, bit, arith,
}
use octans.Mmu.{or_flags, union_flags}

-- Some entry is present and has the bit `k`.
pub any_present : ℕ → List ℕ → Bool
any_present k [] = false
any_present k (e ∷ table) = (e % 2 == 1 && e / 2 ^ k % 2 == 1) || any_present k table

-- The flags W, U and X.
abbrev pub flags_word : Bool → Bool → Bool → ℕ
flags_word w u x = bit w * 2 + bit u * 4 + bit x * 8

-- The rights that some present entry of a table has.
pub rights : List ℕ → ℕ
rights table = flags_word (any_present 1 table) (any_present 2 table) (any_present 3 table)

or_flags_word :
    (w u x w' u' x' : Bool)
    → or_flags (flags_word w u x) (flags_word w' u' x') ≡ flags_word (w || w') (u || u') (x || x')
unfolding zip_bits
or_flags_word w u x w' u' x' = ground arith

entry_flags :
    (e : ℕ)
    → bit_at e 1 + bit_at e 2 + bit_at e 3
      ≡ flags_word (e / 2 ^ 1 % 2 == 1) (e / 2 ^ 2 % 2 == 1) (e / 2 ^ 3 % 2 == 1)
entry_flags e = ground arith

or_assoc : (a b c : Bool) → ((a || b) || c) ≡ (a || (b || c))
or_assoc true b c = refl
or_assoc false b c = refl

or_false : (a : Bool) → (a || false) ≡ a
or_false true = refl
or_false false = refl

flags_word_cong :
    (w u x w' u' x' : Bool) → w ≡ w' → u ≡ u' → x ≡ x' → flags_word w u x ≡ flags_word w' u' x'
flags_word_cong w u x w' u' x' ew eu ex = ground arith

-- The loop adds to the flags it starts with.
union_flags_from :
    (table : List ℕ) (w u x : Bool)
    → union_flags table (flags_word w u x)
      ≡ flags_word (w || any_present 1 table) (u || any_present 2 table) (x || any_present 3 table)
unfolding union_flags any_present
union_flags_from [] w u x =
    flags_word_cong w u x (w || false) (u || false) (x || false) (ground arith) (ground arith)
      (ground arith)
union_flags_from (e ∷ table) w u x = elim (Bool-cases (e % 2 == 0)) [
  | inl absent ↦
      let odd : (e % 2 == 1) ≡ false = ground arith in
      rw (absent, odd) (union_flags_from table w u x)
  | inr present ↦
      let odd : (e % 2 == 1) ≡ true = ground arith in
      let w' = e / 2 ^ 1 % 2 == 1 in
      let u' = e / 2 ^ 2 % 2 == 1 in
      let x' = e / 2 ^ 3 % 2 == 1 in
      rw (present, odd)
        (ap (union_flags table)
            (ap (or_flags (flags_word w u x)) (entry_flags e) ∙ or_flags_word w u x w' u' x')
          ∙ union_flags_from table (w || w') (u || u') (x || x')
          ∙ flags_word_cong _ _ _ _ _ _ (or_assoc w w' (any_present 1 table))
              (or_assoc u u' (any_present 2 table)) (or_assoc x x' (any_present 3 table)))
]

-- From no flags it collects just the rights of the entries that are present.
pub union_flags-rights : (table : List ℕ) → union_flags table 0 ≡ rights table
unfolding rights
union_flags-rights table = union_flags_from table false false false

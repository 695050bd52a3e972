-- ===== src/Mmu/Built.antt =====
-- `mmu_build_kernel_identity_map` of src/mmu.c: the tables that the kernel starts with.
use octans.Prelude.{
  ℕ, zero, suc, ◌+◌, ◌-◌, ◌*◌, ◌/◌, ◌%◌, ◌^◌, ◌<◌, ◌≡◌, refl, sym, ap, ap₂, subst, ◌∙◌, List, [],
  ◌∷◌, true, false, inl, inr, Bool-cases, leb, ◌==◌, if◌then◌else◌, length, get_or, set, length-set,
  get_or-set, for_range, for_range_inv, bit_at, arith,
}
use octans.Mmu.{
  Layout, va_map_limit, l2_entries, or_flags, union_flags, mmu_prot_to_pte_flags,
  mmu_kernel_page_prot, build_page,
}
use octans.Mmu.Pages.{page_limit}

-- What one entry adds to the flags.
add_entry : ℕ → ℕ → ℕ
add_entry e acc = if e % 2 == 0 then acc else or_flags acc (bit_at e 1 + bit_at e 2 + bit_at e 3)

-- The flags of the first `n` entries, the last of them added last.
pub flags_upto : (ℕ → ℕ) → ℕ → ℕ → ℕ
flags_upto entry zero acc = acc
flags_upto entry (suc n) acc = add_entry (entry n) (flags_upto entry n acc)

flags_shift :
    (entry : ℕ → ℕ) (n acc : ℕ)
    → flags_upto entry (suc n) acc ≡ flags_upto (λ j. entry (suc j)) n (add_entry (entry 0) acc)
unfolding flags_upto
flags_shift entry zero acc = refl
flags_shift entry (suc n) acc = ap (add_entry (entry (suc n))) (flags_shift entry n acc)

pub flags_ext :
    (f g : ℕ → ℕ) (n acc : ℕ)
    → ((j : ℕ) → j < n → f j ≡ g j)
    → flags_upto f n acc ≡ flags_upto g n acc
unfolding flags_upto
flags_ext f g zero acc h = refl
flags_ext f g (suc n) acc h =
    ap₂ add_entry (h n (omega arith)) (flags_ext f g n acc (λ j low. h j (omega arith)))

pub union_flags_lem :
    (table : List ℕ) (acc : ℕ)
    → union_flags table acc ≡ flags_upto (λ j. get_or table j 0) (length table) acc
unfolding union_flags flags_upto add_entry
union_flags_lem [] acc = refl
union_flags_lem (e ∷ table) acc =
    union_flags_lem table (add_entry e acc)
    ∙ sym (flags_shift (λ j. get_or (e ∷ table) j 0) (length table) acc)

-- The entry of the page `n` that the inner loop makes.
unfoldable pub made_entry : Layout → ℕ → ℕ
made_entry layout n =
    if leb page_limit n
    then 0
    else n * 4096 + 1 + mmu_prot_to_pte_flags (mmu_kernel_page_prot layout (n * 4096))

abbrev pub entry_in : Layout → ℕ → ℕ → ℕ
entry_in layout pde pte = made_entry layout (pde * 1024 + pte)

flags_of_page :
    (a w x u acc : ℕ)
    → a % 16 ≡ 0
    → w < 2
    → x < 2
    → u < 2
    → add_entry (a + 1 + (w * 2 + x * 8 + u * 4)) acc ≡ or_flags acc (w * 2 + x * 8 + u * 4)
unfolding add_entry
flags_of_page a w x u acc h hw hx hu =
    let e = a + 1 + (w * 2 + x * 8 + u * 4) in
    let present : (e % 2 == 0) ≡ false = ground arith in
    let flags : bit_at e 1 + bit_at e 2 + bit_at e 3 ≡ w * 2 + x * 8 + u * 4 = omega arith in
    rw present (ap (or_flags acc) flags)

-- The inner loop before the round `i`.
pub record IsBuiltUpto (layout : Layout) (pde i : ℕ) (s : List ℕ × ℕ) : Type 0 where
  pub size : length s.0 ≡ l2_entries
  pub done : (j : ℕ) → j < i → get_or s.0 j 0 ≡ entry_in layout pde j
  pub flags : s.1 ≡ flags_upto (entry_in layout pde) i 0

module _ (layout : Layout) (pde : ℕ) where
  -- The next entry is put in, and its flags are added.
  put_entry-IsBuiltUpto :
      (i v flags : ℕ) (s : List ℕ × ℕ)
      → i < l2_entries
      → v ≡ entry_in layout pde i
      → flags ≡ add_entry v s.1
      → IsBuiltUpto layout pde i s
      → IsBuiltUpto layout pde (i + 1) (set s.0 i v, flags)
  unfolding flags_upto
  put_entry-IsBuiltUpto i v flags s h ev ef b = record {
    size = length-set s.0 i v ∙ b.size;
    done = λ j low. get_or-set s.0 i j v 0 (omega (arith, b.size)) ∙ (elim (Bool-cases (i == j)) [
      | inl e ↦ let same : i ≡ j = ground arith in rw e (ev ∙ ap (entry_in layout pde) same)
      | inr e ↦ rw e (b.done j (ground (arith, e)))
    ]);
    flags =
        let next : suc i ≡ i + 1 = omega arith in
        subst (λ n. flags ≡ flags_upto (entry_in layout pde) n 0) next
          (ef ∙ ap₂ add_entry ev b.flags);
  }

  build_page-IsBuiltUpto :
      (i : ℕ) (s : List ℕ × ℕ)
      → i < l2_entries
      → IsBuiltUpto layout pde i s
      → IsBuiltUpto layout pde (i + 1) (build_page layout pde i s)
  unfolding build_page made_entry add_entry
  build_page-IsBuiltUpto i s h b =
      let n = pde * 1024 + i in
      let pa : pde * 2 ^ 22 + i * 2 ^ 12 ≡ n * 4096 = omega arith in
      let prot = mmu_kernel_page_prot layout (n * 4096) in
      elim (Bool-cases (leb page_limit n)) [
        | inl e ↦
            let beyond : leb va_map_limit (n * 4096) ≡ true = ground (arith, e) in
            let empty : made_entry layout n ≡ 0 = rw e refl in
            rw (pa, beyond) (put_entry-IsBuiltUpto i 0 s.1 s h (sym empty) refl b)
        | inr e ↦
            let below : leb va_map_limit (n * 4096) ≡ false = ground (arith, e) in
            let flags = mmu_prot_to_pte_flags prot in
            let addr : n * 4096 - n * 4096 % 4096 ≡ n * 4096 = omega arith in
            let full : made_entry layout n ≡ n * 4096 + 1 + flags = rw e refl in
            rw (pa, below, addr)
              (put_entry-IsBuiltUpto i (n * 4096 + 1 + flags) (or_flags s.1 flags) s h (sym full)
                (sym (
                  flags_of_page (n * 4096) (prot / 2 % 2) (prot / 4 % 2) (prot / 8 % 2) s.1
                    (omega arith) (omega arith) (omega arith) (omega arith)))
                b)
      ]

  -- The whole table, from one of the right size.
  pub table-IsBuiltUpto :
      (table : List ℕ)
      → length table ≡ l2_entries
      → IsBuiltUpto layout pde l2_entries
          (for_range l2_entries 0 (build_page layout pde) (table, 0))
  unfolding flags_upto
  table-IsBuiltUpto table h =
      for_range_inv (IsBuiltUpto layout pde) (build_page layout pde) 0 l2_entries
        (λ i s low high b. build_page-IsBuiltUpto i s high b) l2_entries (table, 0) refl
        (record { size = h; done = λ j low. absurd (omega arith); flags = refl })

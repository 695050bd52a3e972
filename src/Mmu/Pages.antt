-- ===== src/Mmu/Pages.antt =====
-- One page of src/mmu.c: what `mmu_map_identity_page` changes, and the agreement of the two levels.
use octans.Prelude.{
  ℕ, ◌+◌, ◌-◌, ◌*◌, ◌/◌, ◌%◌, ◌^◌, ◌<◌, ◌≡◌, refl, sym, ap, ap₂, ◌∙◌, List, [], some, Bool, false,
  inl, inr, Bool-cases, leb, ◌==◌, if◌then◌else◌, length, get_or, set, length-set, get_or-set,
  arith,
}
use octans.Mmu.{
  Mmu, Layout, va_map_limit, l1_entries, l2_entries, l2_tables, page_size, table_at, dir_entry,
  union_flags, mmu_prot_to_pte_flags, mmu_map_identity_page,
}
use octans.Mmu.Rights.{rights, union_flags-rights}

-- The entry of the page with the number `n`.
abbrev pub entry_at : Mmu → ℕ → ℕ
entry_at m n = get_or (table_at m (n / 1024)) (n % 1024) 0

-- The tables have their sizes.
pub record HasTables (m : Mmu) : Type 0 where
  pub level1 : length m.l1 ≡ l1_entries
  pub level2 : length m.l2 ≡ l2_tables
  pub tables : (i : ℕ) → i < l2_tables → length (table_at m i) ≡ l2_entries

-- The entry of a table in `g_l1` points to it and has just the rights that some present entry has.
unfoldable pub IsSynced : Layout → Mmu → Type 0
IsSynced layout m =
    (i : ℕ) → i < l2_tables → get_or m.l1 i 0 ≡ dir_entry layout i (rights (table_at m i))

-- The number of the first page beyond the limit.
abbrev pub page_limit : ℕ
page_limit = va_map_limit / page_size

-- What an identity mapping of the page `n` is.
abbrev pub mapped : ℕ → ℕ → ℕ
mapped n prot = n * 4096 + 1 + mmu_prot_to_pte_flags prot

-- The tables behind a mapping of the page `q`.
unfoldable pub put_page : Layout → ℕ → ℕ → Mmu → Mmu
put_page layout q prot m =
    let table = set (table_at m (q / 1024)) (q % 1024) (mapped q prot) in
    record m {
      l2 = set m.l2 (q / 1024) table;
      l1 = set m.l1 (q / 1024) (dir_entry layout (q / 1024) (union_flags table 0));
    }

pub map_page_lem :
    (layout : Layout) (q prot : ℕ) (m : Mmu)
    → q < page_limit
    → mmu_map_identity_page layout (q * page_size) prot m ≡ some (put_page layout q prot m)
unfolding mmu_map_identity_page put_page
map_page_lem layout q prot m h =
    let inside : leb va_map_limit (q * page_size) ≡ false = ground arith in
    let pde : q * page_size / 2 ^ 22 ≡ q / 1024 = omega arith in
    let pte : q * page_size / 2 ^ 12 % 1024 ≡ q % 1024 = omega arith in
    let low : leb l2_tables (q / 1024) ≡ false = ground arith in
    let addr : q * page_size - q * page_size % page_size ≡ q * page_size = omega arith in
    rw (inside, pde, pte, low, addr) refl

module _ (layout : Layout) (q prot : ℕ) (m : Mmu) (h : q < page_limit) (t : HasTables m) where
  table-put_page :
      (i : ℕ)
      → table_at (put_page layout q prot m) i ≡ (
          if q / 1024 == i
          then set (table_at m (q / 1024)) (q % 1024) (mapped q prot)
          else table_at m i)
  unfolding put_page
  table-put_page i = get_or-set m.l2 (q / 1024) i _ [] (omega (arith, t.level2))

  pub entry-put_page :
      (n : ℕ)
      → entry_at (put_page layout q prot m) n ≡ (if q == n then mapped q prot else entry_at m n)
  entry-put_page n =
      ap (λ (table : List ℕ). get_or table (n % 1024) 0) (table-put_page (n / 1024))
      ∙ elim (Bool-cases (q / 1024 == n / 1024)) [
        | inl e ↦
            let same : q / 1024 ≡ n / 1024 = ground arith in
            let inside : q % 1024 < length (table_at m (q / 1024)) =
              omega (arith, t.tables (q / 1024) (omega arith)) in
            let pages : (q % 1024 == n % 1024) ≡ (q == n) = ground (arith, same) in
            rw e (
              get_or-set (table_at m (q / 1024)) (q % 1024) (n % 1024) (mapped q prot) 0 inside
              ∙ ap₂ (λ (b : Bool) (x : ℕ). if b then mapped q prot else x) pages
                  (ap (λ (j : ℕ). get_or (table_at m j) (n % 1024) 0) same))
        | inr e ↦ let other : (q == n) ≡ false = ground (arith, e) in rw (e, other) refl
      ]

  pub put_page-HasTables : HasTables (put_page layout q prot m)
  unfolding put_page
  put_page-HasTables = record {
    level1 = length-set m.l1 _ _ ∙ t.level1;
    level2 = length-set m.l2 _ _ ∙ t.level2;
    tables = λ i low. ap length (table-put_page i) ∙ (elim (Bool-cases (q / 1024 == i)) [
      | inl e ↦ rw e (length-set (table_at m (q / 1024)) _ _ ∙ t.tables (q / 1024) (omega arith))
      | inr e ↦ rw e (t.tables i low)
    ]);
  }

  pub put_page-IsSynced : IsSynced layout m → IsSynced layout (put_page layout q prot m)
  unfolding put_page IsSynced
  put_page-IsSynced synced i low =
      let table = set (table_at m (q / 1024)) (q % 1024) (mapped q prot) in
      get_or-set m.l1 (q / 1024) i (dir_entry layout (q / 1024) (union_flags table 0)) 0
        (omega (arith, t.level1))
      ∙ (elim (Bool-cases (q / 1024 == i)) [
        | inl e ↦
            let same : q / 1024 ≡ i = ground arith in
            rw e (
              ap (dir_entry layout (q / 1024)) (union_flags-rights table)
              ∙ ap (λ (j : ℕ). dir_entry layout j (rights table)) same)
        | inr e ↦ rw e (synced i low)
      ])
      ∙ ap (λ (tb : List ℕ). dir_entry layout i (rights tb)) (sym (table-put_page i))

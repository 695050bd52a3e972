-- ===== src/Mmu/Range.antt =====
-- `mmu_map_identity` of src/mmu.c against a direct description of the tables behind it.
use octans.Prelude.{
  ℕ, zero, suc, ◌+◌, ◌-◌, ◌*◌, ◌/◌, ◌<◌, ◌≤◌, ◌≡◌, refl, ap, ◌∙◌, inl, inr, ℤ, pos, Option, none,
  some, true, false, ◌&&◌, Bool-cases, ltb, leb, ◌==◌, if◌then◌else◌, add32, arith,
}
use octans.Mmu.{Mmu, Layout, Registers, page_size, map_pages, mmu_flush_all}
use octans.Mmu.Pages.{
  HasTables, IsSynced, entry_at, mapped, page_limit, put_page, map_page_lem, entry-put_page,
  put_page-HasTables, put_page-IsSynced,
}

-- The tables behind the mapping of the pages from `first` up to `stop`.
pub record IsMapped (layout : Layout) (first stop prot : ℕ) (m m' : Mmu) : Type 0 where
  pub tables : HasTables m'
  pub synced : IsSynced layout m'
  pub enabled : m'.enabled ≡ m.enabled
  pub entries :
      (n : ℕ) → entry_at m' n ≡ (if leb first n && ltb n stop then mapped n prot else entry_at m n)

-- One page before, and the others behind it.
merge :
    (q stop n a b : ℕ)
    → q < stop
    → (if leb (q + 1) n && ltb n stop then a else if q == n then a else b)
      ≡ (if leb q n && ltb n stop then a else b)
merge q stop n a b h = ground arith

at_page :
    (q n prot b : ℕ) → (if q == n then mapped q prot else b) ≡ (if q == n then mapped n prot else b)
at_page q n prot b = elim (Bool-cases (q == n)) [
  | inl e ↦ let same : q ≡ n = ground arith in rw e (ap (λ (j : ℕ). mapped j prot) same)
  | inr e ↦ rw e refl
]

module _ (layout : Layout) (prot : ℕ) where
  map_pages_step :
      (left q : ℕ) (m : Mmu)
      → q + suc left ≤ page_limit
      → map_pages layout (suc left) (q * page_size) prot m
        ≡ map_pages layout left ((q + 1) * page_size) prot (put_page layout q prot m)
  unfolding map_pages
  map_pages_step left q m h =
      let page : add32 (q * page_size) page_size ≡ (q + 1) * page_size = omega arith in
      ap
        (λ (found : Option Mmu). elim found [
          | none ↦ (m, false)
          | some m' ↦ map_pages layout left (add32 (q * page_size) page_size) prot m'
        ])
        (map_page_lem layout q prot m (omega arith))
      ∙ ap (λ (p : ℕ). map_pages layout left p prot (put_page layout q prot m)) page

  -- One page more, in front of the others.
  IsMapped-cons :
      (left q : ℕ) (m m' : Mmu)
      → q < page_limit
      → HasTables m
      → IsMapped layout (q + 1) (q + 1 + left) prot (put_page layout q prot m) m'
      → IsMapped layout q (q + suc left) prot m m'
  unfolding put_page
  IsMapped-cons left q m m' low t r = record {
    tables = r.tables;
    synced = r.synced;
    enabled = r.enabled;
    entries = λ n.
        let stop : q + 1 + left ≡ q + suc left = omega arith in
        let inner = λ (s b : ℕ). if leb (q + 1) n && ltb n s then mapped n prot else b in
        r.entries n
        ∙ ap (inner (q + 1 + left))
            (entry-put_page layout q prot m low t n ∙ at_page q n prot (entry_at m n))
        ∙ ap (λ (s : ℕ). inner s (if q == n then mapped n prot else entry_at m n)) stop
        ∙ merge q (q + suc left) n (mapped n prot) (entry_at m n) (omega arith);
  }

  pub map_pages-IsMapped :
      (left q : ℕ) (m : Mmu)
      → q + left ≤ page_limit
      → HasTables m
      → IsSynced layout m
      → (m' : Mmu) × (map_pages layout left (q * page_size) prot m ≡ (m', true))
        × IsMapped layout q (q + left) prot m m'
  unfolding map_pages
  map_pages-IsMapped zero q m h t synced =
      (m, refl, record { tables = t; synced = synced; enabled = refl; entries = λ n. ground arith })
  map_pages-IsMapped (suc left) q m h t synced =
      let low : q < page_limit = omega arith in
      let (m', loop, r) =
        map_pages-IsMapped left (q + 1) (put_page layout q prot m) (omega arith)
          (put_page-HasTables layout q prot m low t)
          (put_page-IsSynced layout q prot m low t synced) in
      (m', map_pages_step left q m h ∙ loop, IsMapped-cons left q m m' low t r)

-- The first page of a range, and the first behind it.
abbrev pub first_page : ℕ → ℕ
first_page va = va / page_size

abbrev pub stop_page : ℕ → ℕ → ℕ
stop_page va len = (va + len + (page_size - 1)) / page_size

-- What holds of the answer of `mmu_map_identity` where it succeeds.
Succeeds : {W : Type 0} → Registers W → Layout → ℕ → ℕ → ℕ → Mmu → W → (Mmu × W) × ℤ → Type 0
Succeeds regs layout first stop prot m w ((m', w'), rc) =
    (rc ≡ pos 0) × IsMapped layout first stop prot m m' × (w' ≡ mmu_flush_all regs m w)

-- ===== src/Mmu/Kernel.antt =====
-- The whole of `mmu_build_kernel_identity_map` of src/mmu.c, table by table.
use octans.Prelude.{
  ℕ, ◌+◌, ◌*◌, ◌/◌, ◌<◌, ◌≤◌, ◌≡◌, List, ltb, leb, ◌&&◌, Bool, if◌then◌else◌, length, get_or,
}
use octans.Mmu.{Mmu, Layout, l1_entries, l2_entries, l2_tables, table_at, dir_entry}
use octans.Mmu.Pages.{page_limit, HasTables, IsSynced, entry_at}
use octans.Mmu.Built.{entry_in, flags_upto}

-- The first `i` tables are built, and the entries of `g_l1` behind them are 0.
record IsBuiltBelow (layout : Layout) (i : ℕ) (m : Mmu) : Type 0 where
  tables : HasTables m
  entries : (p j : ℕ) → p < i → j < l2_entries → get_or (table_at m p) j 0 ≡ entry_in layout p j
  dirs :
      (p : ℕ)
      → p < i
      → get_or m.l1 p 0 ≡ dir_entry layout p (flags_upto (entry_in layout p) l2_entries 0)
  rest : (p : ℕ) → i ≤ p → get_or m.l1 p 0 ≡ 0

-- `g_l1` before the round `i` of the loop that clears it.
record IsZeroed (i : ℕ) (l1 : List ℕ) : Type 0 where
  size : length l1 ≡ l1_entries
  zeros : (p : ℕ) → p < i → get_or l1 p 0 ≡ 0

-- The page `n` holds a byte of the section from `start` to `stop`, or of its first page.
abbrev pub in_section : ℕ → ℕ → ℕ → Bool
in_section start stop n = leb (start / 4096) n && ltb n ((stop + 4095) / 4096)

-- The entry of the page `n`: its address and the bit P, with X for the text, W for what is neither
-- text nor constants; and 0 beyond the limit.
abbrev pub kernel_entry : Layout → ℕ → ℕ
kernel_entry layout n =
    if leb page_limit n
    then 0
    else if in_section layout.text_start layout.text_end n
    then n * 4096 + 1 + 8
    else if in_section layout.rodata_start layout.rodata_end n
    then n * 4096 + 1
    else n * 4096 + 1 + 2

-- What the kernel starts with.
pub record IsKernelMap (layout : Layout) (m : Mmu) : Type 0 where
  pub tables : HasTables m
  pub synced : IsSynced layout m
  pub entries : (n : ℕ) → n < l2_tables * l2_entries → entry_at m n ≡ kernel_entry layout n
  pub rest : (p : ℕ) → l2_tables ≤ p → get_or m.l1 p 0 ≡ 0

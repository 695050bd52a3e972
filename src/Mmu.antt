-- ===== src/Mmu.antt =====
-- src/mmu.c: the page tables that every processor shares, and the unit's registers. A call runs as
-- one step, as `g_mmu_map_lock` makes it.
pub mod Built
pub mod Kernel
mod Tests
pub mod Rights
pub mod Pages
pub mod Range
use octans.Prelude.{
  ℕ, zero, suc, ◌+◌, ◌-◌, ◌*◌, ◌/◌, ◌%◌, ◌^◌, ℤ, pos, negsuc, List, [], ◌∷◌, Option, none, some,
  Bool, true, false, ◌&&◌, ◌||◌, not, ltb, leb, ◌==◌, if◌then◌else◌, get_or, set, for_range, add32,
  bit_at, zip_bits,
}
use octans.Fs.Proc.Boot.{Machine, BootInfo, vm_info_load_boot}

-- MMU_VA_MAP_LIMIT: KERNEL_MEM_SIZE + FB_SIZE, a multiple of the page size.
abbrev pub va_map_limit : ℕ
va_map_limit = 0x4000000 + 640 * 480 * 4

abbrev pub page_size : ℕ
page_size = 4096

abbrev pub l1_entries : ℕ
l1_entries = 1024

abbrev pub l2_entries : ℕ
l2_entries = 1024

-- MMU_L2_TABLES, with 4 MB for each entry of `g_l1`.
abbrev pub l2_tables : ℕ
l2_tables = (va_map_limit + 0x400000 - 1) / 0x400000

-- The addresses that the linker gives: of `g_l1` and `g_l2`, and the ends of two sections.
pub record Layout : Type 0 where
  pub l1_addr : ℕ
  pub l2_addr : ℕ
  pub text_start : ℕ
  pub text_end : ℕ
  pub rodata_start : ℕ
  pub rodata_end : ℕ

-- `g_mmu_enabled`, `g_root_pa_lo`, `g_l1` and `g_l2`.
pub record Mmu : Type 0 where
  pub enabled : ℕ
  pub root_pa_lo : ℕ
  pub l1 : List ℕ
  pub l2 : List (List ℕ)

abbrev pub align_down_4k : ℕ → ℕ
align_down_4k v = v - v % page_size

abbrev pub align_up_4k : ℕ → ℕ
align_up_4k v = align_down_4k (add32 v (page_size - 1))

-- MMU_PROT_WRITE, EXEC and USER, the bits 1, 2 and 3, as MMU_PTE_W, X and U, the bits 1, 3 and 2.
abbrev pub mmu_prot_to_pte_flags : ℕ → ℕ
mmu_prot_to_pte_flags prot = prot / 2 % 2 * 2 + prot / 4 % 2 * 8 + prot / 8 % 2 * 4

-- (va & 0xFFFFF000) | MMU_PTE_P | flags
abbrev pub entry_of : ℕ → ℕ → ℕ
entry_of addr flags = align_down_4k addr + 1 + flags

-- a | b of two words of 4 bits.
abbrev pub or_flags : ℕ → ℕ → ℕ
or_flags = zip_bits ◌||◌ 4

-- The loop over the table: the flags W, U and X of the entries that are present.
unfoldable pub union_flags : List ℕ → ℕ → ℕ
union_flags [] pde_flags = pde_flags
union_flags (e ∷ table) pde_flags =
    union_flags table
      (if e % 2 == 0 then pde_flags else or_flags pde_flags (bit_at e 1 + bit_at e 2 + bit_at e 3))

-- (&g_l2[pde][0] & 0xFFFFF000) | MMU_PTE_P | pde_flags
abbrev pub dir_entry : Layout → ℕ → ℕ → ℕ
dir_entry layout pde pde_flags = entry_of (add32 layout.l2_addr (pde * 4096)) pde_flags

abbrev pub table_at : Mmu → ℕ → List ℕ
table_at m pde = get_or m.l2 pde []

-- `none` is -1.
unfoldable pub mmu_map_identity_page : Layout → ℕ → ℕ → Mmu → Option Mmu
mmu_map_identity_page layout va prot m =
    let pde = va / 2 ^ 22 in
    let pte = va / 2 ^ 12 % 1024 in
    let table = set (table_at m pde) pte (entry_of va (mmu_prot_to_pte_flags prot)) in
    if leb va_map_limit va || leb l2_tables pde
    then none
    else some (record m {
      l2 = set m.l2 pde table;
      l1 = set m.l1 pde (dir_entry layout pde (union_flags table 0));
    })

-- The loop from `page` on, with `left` pages to map; `false` is the break.
unfoldable pub map_pages : Layout → ℕ → ℕ → ℕ → Mmu → Mmu × Bool
map_pages layout zero page prot m = (m, true)
map_pages layout (suc left) page prot m = elim (mmu_map_identity_page layout page prot m) [
  | none ↦ (m, false)
  | some m' ↦ map_pages layout left (add32 page page_size) prot m'
]

-- MMU_PROT_READ, WRITE and EXEC.
unfoldable pub mmu_kernel_page_prot : Layout → ℕ → ℕ
mmu_kernel_page_prot layout pa =
    if leb (align_down_4k layout.text_start) pa && ltb pa (align_up_4k layout.text_end)
    then 1 + 4
    else if leb (align_down_4k layout.rodata_start) pa && ltb pa (align_up_4k layout.rodata_end)
    then 1
    else 1 + 2

-- One round of the inner loop, on a table and the flags.
unfoldable pub build_page : Layout → ℕ → ℕ → List ℕ × ℕ → List ℕ × ℕ
build_page layout pde pte (table, pde_flags) =
    let pa = pde * 2 ^ 22 + pte * 2 ^ 12 in
    let pte_flags = mmu_prot_to_pte_flags (mmu_kernel_page_prot layout pa) in
    if leb va_map_limit pa
    then (set table pte 0, pde_flags)
    else (set table pte (entry_of pa pte_flags), or_flags pde_flags pte_flags)

-- One round of the outer loop.
unfoldable pub build_table : Layout → ℕ → Mmu → Mmu
build_table layout pde m =
    let (table, pde_flags) = for_range l2_entries 0 (build_page layout pde) (table_at m pde, 0) in
    record m { l2 = set m.l2 pde table; l1 = set m.l1 pde (dir_entry layout pde pde_flags) }

unfoldable pub mmu_build_kernel_identity_map : Layout → Mmu → Mmu
mmu_build_kernel_identity_map layout m =
    let zeroed = record m { l1 = for_range l1_entries 0 (λ i l1. set l1 i 0) m.l1 } in
    for_range l2_tables 0 (build_table layout) zeroed

-- The unit's registers, in a state of the hardware.
pub record Registers (W : Type 0) : Type 0 where
  pub mmio_write32 : ℕ → ℕ → W → W
  pub mmio_read32 : ℕ → W → W × ℕ

abbrev pub mmu_mmio_base : ℕ
mmu_mmio_base = 0x74f000

module _ {W : Type 0} (regs : Registers W) where
  abbrev pub write_reg : ℕ → ℕ → W → W
  write_reg reg value = regs.mmio_write32 (mmu_mmio_base + reg) value

  unfoldable pub mmu_enable_local : ℕ → W → W × ℕ
  mmu_enable_local root w =
      let w₁ = write_reg 0x8 root (write_reg 0x4 0 w) in
      let w₂ = write_reg 0x4 1 (write_reg 0x10 1 (write_reg 0xc 0 w₁)) in
      let (w₃, ctrl) = regs.mmio_read32 (mmu_mmio_base + 0x4) w₂ in
      (w₃, if ctrl % 2 == 0 then 0 else 1)

  -- The fence orders memory, which one step at a time does by itself.
  unfoldable pub mmu_flush_all : Mmu → W → W
  mmu_flush_all m w = if m.enabled == 0 then w else write_reg 0x20 2 w

  -- The part behind the tests of the range.
  unfoldable pub map_range : Layout → ℕ → ℕ → ℕ → Mmu × W → (Mmu × W) × ℤ
  map_range layout start end prot (m, w) =
      let (m', mapped) = map_pages layout ((end - start) / page_size) start prot m in
      if mapped then ((m', mmu_flush_all m' w), pos 0) else ((m', w), negsuc 0)

  unfoldable pub mmu_map_identity : Layout → ℕ → ℕ → ℕ → Mmu × W → (Mmu × W) × ℤ
  mmu_map_identity layout va len prot s =
      let start = align_down_4k va in
      let end = align_up_4k (add32 va len) in
      if len == 0
      then (s, pos 0)
      else if leb va_map_limit va || ltb (va_map_limit - va) len
      then (s, negsuc 0)
      else if ltb end start || ltb va_map_limit end
      then (s, negsuc 0)
      else map_range layout start end prot s

  -- The boot information is of use: BOOTINFO_FEATURE_MMU_PAGING is 1 << 7.
  abbrev pub boot_allows : Option BootInfo → Bool
  boot_allows none = false
  boot_allows (some info) = not (bit_at info.features 7 == 0) && info.page_size == page_size

  -- The log is left out.
  unfoldable pub mmu_init : Layout → Machine → Mmu × W → Machine × (Mmu × W)
  mmu_init layout machine (m, w) =
      let (machine', info) = vm_info_load_boot machine in
      let off = record m { enabled = 0; root_pa_lo = 0 } in
      let built = mmu_build_kernel_identity_map layout off in
      let (w', enabled) = mmu_enable_local layout.l1_addr w in
      if boot_allows info
      then (machine', (record built { enabled = enabled; root_pa_lo = layout.l1_addr }, w'))
      else (machine', (off, w))

  unfoldable pub mmu_init_ap : Mmu → W → W
  mmu_init_ap m w =
      if m.enabled == 0 || m.root_pa_lo == 0 then w else (mmu_enable_local m.root_pa_lo w).0

abbrev pub mmu_enabled : Mmu → ℕ
mmu_enabled m = if m.enabled == 0 then 0 else 1

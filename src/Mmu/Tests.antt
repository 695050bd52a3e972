-- ===== src/Mmu/Tests.antt =====
-- src/mmu.c with a unit that notes what is written to it.
use octans.Prelude.{ℕ, ◌≡◌, refl, List, ◌∷◌, replicate}
use octans.Mmu.{Mmu, Layout, Registers, mmu_build_kernel_identity_map}
use octans.Mmu.Range.{first_page, stop_page}

abbrev Log : Type 0
Log = List (ℕ × ℕ)

abbrev regs : Registers Log
regs = record {
  mmio_write32 = λ addr value log. (addr, value) ∷ log;
  mmio_read32 = λ addr log. (log, 1);
}

abbrev layout : Layout
layout = record {
  l1_addr = 0x200000;
  l2_addr = 0x201000;
  text_start = 0x10000;
  text_end = 0x30123;
  rodata_start = 0x31000;
  rodata_end = 0x34000;
}

abbrev blank : Mmu
blank = record {
  enabled = 1;
  root_pa_lo = 0;
  l1 = replicate 1024 0;
  l2 = replicate 17 (replicate 1024 0);
}

abbrev built : Mmu
built = mmu_build_kernel_identity_map layout blank

pages : ◌≡◌ {A = ℕ × ℕ} (first_page 0x2000fd0, stop_page 0x2000fd0 100) (0x2000, 0x2002)
pages = refl

-- ===== src/Fs/Proc/Boot.antt =====
-- `vm_info_load_boot` of src/vm_info.c, and the registers that src/fs_proc.c reads. The registers
-- are a function from addresses, fixed while a call runs.
use octans.Prelude.{
  ℕ, ◌+◌, ◌*◌, ◌^◌, List, [], ◌∷◌, Option, none, some, Bool, false, ◌&&◌, ◌||◌, not, ltb, ◌==◌,
  if◌then◌else◌, bit_at,
}

-- `boot_info_t`.
pub record BootInfo : Type 0 where
  pub magic : ℕ
  pub version : ℕ
  pub size : ℕ
  pub vendor_words : List ℕ
  pub mem_bytes_lo : ℕ
  pub mem_bytes_hi : ℕ
  pub disk_bytes_lo : ℕ
  pub disk_bytes_hi : ℕ
  pub smp_cores : ℕ
  pub layout_version : ℕ
  pub arch_id : ℕ
  pub endian : ℕ
  pub phys_addr_bits : ℕ
  pub page_size : ℕ
  pub timer_freq_hz : ℕ
  pub features : ℕ
  pub fb_width : ℕ
  pub fb_height : ℕ
  pub fb_bpp : ℕ
  pub fb_stride_bytes : ℕ
  pub boot_realtime_ns_lo : ℕ
  pub boot_realtime_ns_hi : ℕ

-- `cache` is `g_boot_info_cache` where `g_boot_info_cache_valid` is set, and `kernel_end` the
-- address of the linker's `__kernel_end`.
pub record Machine : Type 0 where
  pub read32 : ℕ → ℕ
  pub cache : Option BootInfo
  pub kernel_end : ℕ

abbrev pub bootinfo_addr : ℕ
bootinfo_addr = 0x2ff000

abbrev pub bootinfo_magic : ℕ
bootinfo_magic = 0x3049424c

abbrev pub bootinfo_version : ℕ
bootinfo_version = 2

abbrev pub bootinfo_size : ℕ
bootinfo_size = 0x64

-- The words of the block that stands at BOOTINFO_ADDR.
abbrev pub read_boot : (ℕ → ℕ) → BootInfo
read_boot read32 =
    let word = λ (offset : ℕ). read32 (bootinfo_addr + offset) in
    record {
      magic = word 0;
      version = word 4;
      size = word 8;
      vendor_words = word 0xc ∷ word 0x10 ∷ word 0x14 ∷ word 0x18 ∷ [];
      mem_bytes_lo = word 0x1c;
      mem_bytes_hi = word 0x20;
      disk_bytes_lo = word 0x24;
      disk_bytes_hi = word 0x28;
      smp_cores = word 0x2c;
      layout_version = word 0x30;
      arch_id = word 0x34;
      endian = word 0x38;
      phys_addr_bits = word 0x3c;
      page_size = word 0x40;
      timer_freq_hz = word 0x44;
      features = word 0x48;
      fb_width = word 0x4c;
      fb_height = word 0x50;
      fb_bpp = word 0x54;
      fb_stride_bytes = word 0x58;
      boot_realtime_ns_lo = word 0x5c;
      boot_realtime_ns_hi = word 0x60;
    }

-- `none` is 0. `out` is not NULL; what a failed call leaves in it is not read.
unfoldable pub vm_info_load_boot : Machine → Machine × Option BootInfo
vm_info_load_boot m =
    let info = read_boot m.read32 in
    if not (info.magic == bootinfo_magic)
      || not (info.version == bootinfo_version)
      || ltb info.size bootinfo_size
    then (m, m.cache)
    else (record m { cache = some info }, some info)

-- What a load gives while the registers stand as they do; a load before it does not change this.
abbrev pub boot_of : Machine → Option BootInfo
boot_of m = (vm_info_load_boot m).1

abbrev pub sysinfo_base : ℕ
sysinfo_base = 0x74c000

abbrev pub proc_read32 : ℕ → Machine → ℕ
proc_read32 addr m = m.read32 addr

unfoldable pub proc_read64 : ℕ → ℕ → Machine → ℕ
proc_read64 low_reg high_reg m =
    proc_read32 (sysinfo_base + high_reg) m * 2 ^ 32 + proc_read32 (sysinfo_base + low_reg) m

-- BOOTINFO_FEATURE_RUNTIME_STATS is 1 << 10; the register is at 0x8C and has to read 1.
unfoldable pub proc_runtime_available : Machine → Bool
unfolding vm_info_load_boot
proc_runtime_available m = elim (boot_of m) [
  | none ↦ false
  | some info ↦ not (bit_at info.features 10 == 0) && proc_read32 (sysinfo_base + 0x8c) m == 1
]

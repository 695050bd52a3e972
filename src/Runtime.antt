-- ===== src/Runtime.antt =====
-- Support code that the compiler calls: 64-bit division (src/compiler_rt_divmod.c).
pub mod Division

-- ===== src/Util.antt =====
-- grspw/grlib_utilgrspw.c: masks on registers, the byte order of the guest, and its memory.
pub mod Mask
pub mod Swap
pub mod Ram
mod Tests
pub mod Word

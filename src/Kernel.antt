-- ===== src/Kernel.antt =====
-- backend/platform_/kernel: money and identifiers.
pub mod Money
pub mod Ids

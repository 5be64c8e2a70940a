-- ===== src/SafePay.antt =====
-- backend/modules/safepay: money held in escrow until its buyer has the goods.
pub mod Escrows
pub mod Settlement
pub mod Service
pub mod Lifecycle

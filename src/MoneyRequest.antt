-- ===== src/MoneyRequest.antt =====
-- backend/modules/money_request: asking another user for money.
pub mod Requests
pub mod Service
pub mod Answers

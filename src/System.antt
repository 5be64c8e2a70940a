-- ===== src/System.antt =====
-- The whole of the backend as a set of transactions on one database, and what holds after every sequence of
-- them (the components of backend/apps/api/container.py, wired as it wires them).
pub mod Invariant
pub mod Windows
pub mod Requests
pub mod Escrows
pub mod Deliveries
pub mod Overdrafts
pub mod Sessions
pub mod Wiring
pub mod Worker
pub mod Steps
pub mod MoneyFacts
pub mod Books
pub mod Once
pub mod Timers
pub mod Links
pub mod EscrowStates
pub mod Keys
pub mod Repeats
pub mod Tests

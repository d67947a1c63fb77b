-- ===== src/ChargeMode.antt =====
-- charge_mode.cpp: the states of a charge, from zero to the return of the cup.
pub mod State
pub mod Motors
pub mod World
pub mod Phase
pub mod Learn
pub mod Charge
pub mod Complete
pub mod Removal
pub mod Menu
pub mod Request
pub mod Zero
pub mod Settle
pub mod Examples
mod Tests

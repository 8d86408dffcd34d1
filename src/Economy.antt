-- ===== src/Economy.antt =====
-- include/clc/economy and src/clc/economy.
pub mod Market
pub mod Pressure
pub mod Trade
pub mod Ledger
pub mod Orders

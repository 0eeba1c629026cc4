-- ===== src/Tests.antt =====
-- Concrete interfaces, files and tables, and the theorems at them.
mod Little
mod World
mod Tables
mod Files
mod Spending
mod Caching
mod Stealth
mod Databases
mod Blocks
mod Histories
mod Transactions
mod Stores
mod Chains

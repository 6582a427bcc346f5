-- ===== src/Tests.antt =====
-- Runs of the model on concrete inputs, and the theorems applied to them, for each part.
mod Money
mod Routing
mod Cards
mod Display
mod Client
mod Dashboard
mod Wallets
mod Transfers
mod Logs
mod Sessions
mod Rails
mod Schedules
mod Admin
mod Hooks
mod Pages

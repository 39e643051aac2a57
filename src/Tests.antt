-- ===== src/Tests.antt =====
-- The theorems at concrete inputs.
mod Closed
mod Mirror
mod Exit
mod Opening
mod Runs
mod Owner
mod Model
mod Admin
mod Handlers
mod Profit
mod Insurance
mod Rules
mod Shares
mod Slot
mod Wire
mod Books

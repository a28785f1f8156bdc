-- ===== src/Tests.antt =====
-- Concrete instances of what the program takes from other packages, and the theorems at concrete inputs.
mod Instances
mod Node
mod Accounts
mod Transactions
mod Texts
mod Contracts
mod Batches
mod Rates
mod Answers
mod Managed
mod Floats
mod Deployments
mod Ticks
mod Machine
mod Wire
mod Methods
mod Reference

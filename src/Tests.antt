-- ===== src/Tests.antt =====
-- Runs of the handlers on tables in memory.
mod Memory
mod Payroll
mod Staff
mod Edited
mod Chain
mod Bip
mod Wallet
mod Rbac
mod Queue
mod Nodes
mod Queries
mod Numbers
mod People
mod Access
mod Granted
mod Settings
mod Tenants

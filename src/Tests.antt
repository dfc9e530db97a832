-- ===== src/Tests.antt =====
-- Concrete runs that meet the conditions of the theorems.
mod Stores
mod Rings
mod Caches
mod Members
mod Replication
mod Servers
mod Requests
mod Clients

-- ===== src/Examples.antt =====
-- The theorems at concrete inputs, and runs of the definitions.
mod Roles
mod Leases
mod Fences
mod Specs
mod Addresses
mod Vnis
mod Quotas
mod Placements
mod Migrations
mod Retries
mod Overlays
mod Switches
mod Firewalls
mod Rules
mod Files
mod Hosts
mod Tenants

-- ===== src/Fleet.antt =====
-- The collectors' identities: scouts, their leases, graduation and quarantine.
pub mod Identities
pub mod Sightings
pub mod Supervisor

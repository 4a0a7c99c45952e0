-- ===== src/Gates.antt =====
-- The gates that serialize requests to a registry endpoint and keep its cooldown:
-- domainsmanager_lookup/store.py, memory_store.py, endpoint_gate.py, and the gates of
-- domainsmanager_persistence/lookup_store.py.
pub mod Delay
pub mod Calls
pub mod Memory
pub mod Attempts
pub mod Sql
pub mod Agreement
pub mod Exclusion

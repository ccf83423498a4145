-- ===== src/Cache.antt =====
-- async_substrate_interface/utils/cache.py
pub mod Lru
pub mod Fetcher

-- ===== src/Storage.antt =====
-- Storage keys: async_substrate_interface/utils/hasher.py, async_substrate_interface/utils/storage.py
-- and the query maps of async_substrate_interface/utils/decoding.py.
pub mod Hasher
pub mod Key
pub mod QueryMap
pub mod TupleType
mod Tests

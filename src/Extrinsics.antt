-- ===== src/Extrinsics.antt =====
-- Extrinsics: `submit_extrinsic` of async_substrate_interface/async_substrate.py.
pub mod Submit
mod Tests

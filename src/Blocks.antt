-- ===== src/Blocks.antt =====
-- The retrieval and the decoding of blocks and headers: `_get_block_handler`, `get_block`,
-- `get_block_header` and `subscribe_block_headers` of AsyncSubstrateInterface in
-- async_substrate_interface/async_substrate.py.
pub mod Digest
pub mod Decode
pub mod Retrieve
pub mod Subscribe
mod Tests

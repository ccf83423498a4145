-- ===== src/Signing.antt =====
-- The making of a signed extrinsic: what AsyncSubstrateInterface of
-- async_substrate_interface/async_substrate.py signs, and with which nonce.
pub mod Nonces
pub mod Payload
pub mod Hex
pub mod Extrinsic
mod Tests

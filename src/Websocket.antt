-- ===== src/Websocket.antt =====
-- class Websocket of async_substrate_interface/async_substrate.py: its ids, its state with the
-- operations on it, the sending and receiving tasks, and the handler that restarts them.
pub mod Ids
pub mod State
pub mod Delivery
pub mod Calls
pub mod Handler
mod Tests

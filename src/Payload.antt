-- ===== src/Payload.antt =====
-- The call data and call values that the bot sends to the sandwich contract.
pub mod V2
pub mod V3
pub mod Layout
mod Examples

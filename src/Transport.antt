-- ===== src/Transport.antt =====
-- The frames around the messages: esl/sw/dep/transport.cpp. `m_frame_mem` is filled from its start
-- on, so a frame is the list of its octets; the addresses, and what is received, are arrays read by
-- their index. The list has no end, but `m_frame_mem` has 256 octets: the model is that of the code
-- for frames that fit, which those of messages of at most 172 octets do (Transport/Length); `transmit`
-- does not look. The accesses to the buffers' registers are left out.
mod Crc
mod Assembly
mod Parsing
mod Setup
pub mod Snap
pub mod Delivery
pub mod Length
mod Examples
unfoldable pub use Crc.*
unfoldable pub use Assembly.*
unfoldable pub use Parsing.*
unfoldable pub use Setup.*

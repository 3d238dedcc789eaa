-- ===== src/Msg.antt =====
-- esl/sw/dep/msg.cpp: packing and unpacking of the PTP messages but for management. The functions
-- are those of the names; `display` calls of a debug build are left out.
mod Octets
mod Pack
mod Unpack
pub mod RoundTrip
pub mod Headers
pub mod Wire
mod Examples
unfoldable pub use Octets.*
unfoldable pub use Pack.*
unfoldable pub use Unpack.*

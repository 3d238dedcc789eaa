-- ===== src/Management.antt =====
-- The management messages: esl/sw/management.cpp. A handler is given the unpacked data of the message
-- that came in, that message and the one to send, and the clock; `CLOCK_DESCRIPTION` and
-- `USER_DESCRIPTION`, whose data are texts, are left out.
mod Message
mod Settable
mod DataSets
mod Commands
pub mod Switch
pub mod Table
pub mod Wire
pub mod RoundTrip
pub mod Answers
pub mod Refusal
pub mod Numbers
mod Examples
unfoldable pub use Message.*
unfoldable pub use Settable.*
unfoldable pub use DataSets.*
unfoldable pub use Commands.*

-- ===== src/Datatypes.antt =====
-- The data types of esl/sw/datatypes.h and esl/sw/dep/datatypes_dep.h, and the enumerations of
-- esl/sw/constants.h. Unsigned fields are numbers, signed fields integers, octet arrays lists of
-- bytes. `PtpClock` is grouped by the comments that divide the C struct; `open ... use *` keeps
-- its fields readable by their own names.
pub mod Message
pub mod Clock
pub mod Options
pub mod Zero
pub mod Samples
pub use Message.*
pub use Clock.*
pub use Options.*
pub use Zero.*
pub use Samples.*

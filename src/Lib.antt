-- ===== src/Lib.antt =====
-- Verification of the PTPv2 daemon of this repository: the software of an IEEE 1588 ordinary clock
-- under esl/sw, which runs on the simulated hardware of esl/sc or on the design in rtl.
--
-- The program and its model. The daemon is one object per part, each with a pointer to the others,
-- over one `PtpClock` and one `RunTimeOpts`. The model passes that state explicitly: an operation
-- takes the records that the C++ code reads and returns those that it writes, and each call of
-- another part is a call of that part's definition. Names follow the C++ names, in snake case.
--
--   Common      Boolean tests, lists indexed by native numbers, `memcmp`, and integers with the
--               wrap-around of the fixed widths (`int32`, `int64`).
--   Datatypes   esl/sw/datatypes.h, esl/sw/dep/datatypes_dep.h, esl/sw/constants.h. `PtpClock` is
--               nested along the comments of the C struct, and its fields open by their own names.
--   Arith       esl/sw/arith.cpp: `TimeInternal` and its conversions. Arith/Total reads a time as
--               one number of nanoseconds, the specification of the others.
--   Msg         esl/sw/dep/msg.cpp: packing and unpacking of the messages, over buffers that are
--               functions of the offset. Msg/Wire joins it with the state decision.
--   Bmc         esl/sw/bmc.cpp: data set comparison, state decision, choice of the best record, and
--               the updates of the data sets.
--   Foreign     `addForeign` of esl/sw/protocol.cpp: the table of foreign masters, its invariant, and
--               its reading as a map from ports to announces.
--   Timer       esl/sw/dep/ptp_timer.cpp: the interval timers. A float interval is the fraction it
--               stands for; `poll` is a question after a number of ticks.
--   Servo       esl/sw/dep/servo.cpp and the thresholds and the tick increment of
--               esl/sw/dep/sys.cpp. Writes to the hardware are values of `Command`.
--   Protocol    `toState` of esl/sw/protocol.cpp: the tasks on leaving and entering a port state.
--               Protocol/Reach has its runs as a step relation.
--   Port        The rest of esl/sw/protocol.cpp: the messages that a port issues (Port/Issue), the
--               handlers (Port/Announce, Port/Sync, Port/Delay, Port/Peer), `handle` (Port/Receive),
--               `doInit` and `doState` (Port/Loop), and of esl/sw/dep/sys.cpp the reading of times
--               and timestamps. Port/Runs has the runs of the main loop as a step relation.
--   Transport   esl/sw/dep/transport.cpp: the addresses (Transport/Setup), the frame around a message
--               (Transport/Assembly), its check sequence (Transport/Crc) and the search for the
--               message in a frame (Transport/Parsing).
--   Management  esl/sw/management.cpp: the message and what the handlers share (Management/Message), the
--               handlers by what they do (Settable, DataSets, Commands), and the switch of
--               `handleManagement` of esl/sw/protocol.cpp, by number (Management/Switch); of esl/sw/dep/msg.cpp
--               the packing of the data that can be set (Management/Wire).
--
-- Each part has an Examples module with the theorems at concrete inputs.
--
-- How the parts interact: `addForeign` stores what Msg unpacks; `bmc_exec` compares the table's
-- records and decides, and Bmc/Sets updates the data sets that Msg packs; the servo measures with
-- the time arithmetic. A port holds the engine and its buffers; what it sends is a list of packets,
-- and what it learns from outside (`netSelect`, `netRecv`, whether `netSend` succeeds, the words of
-- the registers, `getRand`, what an uninitialised local holds) is a record of functions of the
-- number of the question, so that no two answers need be the same.
--
-- Loops and bounds. The loops are structural recursion on the number of rounds left or on the list,
-- so every definition is total without fuel: the filter's shift loop goes down to 0 at most, the
-- search of the table makes as many rounds as there are records. A loop over the timers runs over
-- the array's seven entries. Arithmetic wraps at the width of the C type, and the theorems state the
-- ranges within which nothing wraps.
--
-- What is not modelled: the packing of the other management data, of the TLV and its message, and
-- the two handlers whose data are texts (`CLOCK_DESCRIPTION`, `USER_DESCRIPTION`); so the handler
-- of management messages as a whole is a parameter of the port's switch on the message type, and
-- the theorem on the port's runs is one of runs into which no management message comes: some of
-- them write the port state without `toState` and so break its invariant; the registers of the
-- packet buffers, and what happens when a frame does not fit the 256 octets of its buffer, which
-- has no end in the model (the theorems are of messages whose frames fit); the waits of SystemC
-- within a step; start-up, display, logging and register access, which are input and output; the
-- SystemC and Verilator harnesses; the hardware design. `initTimer` and the offset registers that
-- `initClock` writes are register access. Floating-point constants (`ADJ_FREQ_MAX`, `PI_UNIT`,
-- `INITIAL_TICK`) appear as the integers that the code converts them to.
pub mod Common
pub mod Datatypes
pub mod Arith
pub mod Msg
pub mod Bmc
pub mod Foreign
pub mod Timer
pub mod Servo
pub mod Protocol
pub mod Port
pub mod Transport
pub mod Management

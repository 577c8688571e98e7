-- ===== src/XorMatch.antt =====
-- The XOR-scheduled codes of xorMatch/: schedules that a bit matrix is turned into, and the encoders
-- that run a schedule.
pub mod Memory
pub mod Machine
pub mod Slp
pub mod Schedule
pub mod Encode
pub mod Reads
pub mod EncodeSlp
pub mod Program
pub mod InvertBits
pub mod Matching
pub mod Operations
pub mod Erased
pub mod RowIds
mod Tests

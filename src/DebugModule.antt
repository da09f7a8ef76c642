-- ===== src/DebugModule.antt =====
-- The debug module that the debugger reaches through `dmi`: the members of `remote_bitbang_t` that
-- the branch `DEBUG_MODULE_INTERFACE_ACCESS` of UPDATE_DR in `state_entered()` works on, and that
-- branch (remote_bitbang.cpp, 492 to 1462). Only printing is left out.
mod State
pub mod Control
pub mod Status
pub mod Registers
pub mod Command
pub mod Access
pub mod Invariant
pub use State.*

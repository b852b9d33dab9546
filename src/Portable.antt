-- ===== src/Portable.antt =====
-- share/portable: the ABI dispatcher and its operations.
pub mod Errors
pub mod Abi
pub mod Json
pub mod Text
pub mod Binary
pub mod Crypto
pub mod Dispatcher
pub mod Dispatch
pub mod Tests

-- ===== src/Binding.antt =====
-- The binding proper: the files below src/ and the public header include/itb3.hpp.
pub mod Status
pub mod World
pub mod Memory
pub mod Errors
pub mod Opts
pub mod Buffers
pub mod Pipeline
pub mod Stream
pub mod Runtime

-- ===== src/Demo.antt =====
-- eitb/eitb.cpp: the command-line demonstrator.
pub mod Blob
pub mod Catalogue
pub mod Commands
pub mod Dispatch

-- ===== src/Codegen.antt =====
-- cmd/protoc-gen-synurang-ffi/main.go: what the code generator hands to its templates. Names are byte
-- strings; those of the protocol files are ASCII.
pub mod Names
pub mod Build
pub mod Main
pub mod Imports
pub mod Casing
pub mod Collisions
mod Tests

-- ===== src/LightBpf/Compiler.antt =====
-- LightBPF/CompilerSet/Compiler.py: from syntax trees to programs.
pub mod Protocol
pub mod Platform
pub mod Address
pub mod Transport
pub mod Keyword
pub mod Values
pub mod Boolean
pub mod Assemble
pub mod Code
pub mod Total
pub mod Symbolic
pub mod Answers
pub mod Meaning
pub mod Sound
pub mod Correct
pub mod Host
pub mod DualStack
pub mod HostMac
mod Tests
pub mod Scope
pub mod Scoped
pub mod Tables

-- ===== src/LightBpf.antt =====
-- LightBPF/CompilerSet: the classic BPF virtual machine and its optimiser.
mod Tests
pub mod Opcode
pub mod Instruction
pub mod Emulator
pub mod Simulation
pub mod Program
pub mod Peephole
pub mod Compiler
pub mod Ethertype
pub mod Ast
pub mod Parser

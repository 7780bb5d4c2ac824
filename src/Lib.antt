-- ===== src/Lib.antt =====
-- LightPacket, verified: the classic BPF virtual machine, its compiler and its optimiser, the
-- checksums and frame check sequences, the fragmentation of IP packets, the option codecs of IPv4
-- and TCP, UDP, and VLAN tags.
--
-- LightPacket builds, parses and filters network packets. A filter is compiled to a program of
-- the classic BPF machine (LightBPF/CompilerSet), which the optimiser rewrites and the emulator
-- runs on a packet. The layers (udp.py and its neighbours) turn fields to bytes and back; they
-- use the checksums and frame check sequences of utils and the option codecs of helper.
--
-- The files, and the code they are about:
--   Base: numbers, lists, bit operations, Python's integers, byte strings and exceptions.
--   LightBpf/Opcode, LightBpf/Instruction: the constants and instructions of Opcode.py and
--     Instruction.py, with integer operands, as they are after assembly.
--   LightBpf/Emulator: BpfEmulator.execute of Emulator.py. State is its local variables, `step` one
--     round of its loop, with a handler for each instruction class, and `run` the loop. A handler
--     returns the next state, or the end of the call: a value or an exception.
--   LightBpf/Ast, LightBpf/Ethertype: the syntax trees of Parser.py and the names of Ethertype.py.
--   LightBpf/Parser: BpfParser of Parser.py, from tokens to trees. A method is a function from the
--     tokens that are left; `pos` is how many are gone. Arithmetic, Qualifiers and Logical have the
--     methods, Ends and Total show that they end, and RoundTrip reads the filters of Written back.
--   LightBpf/Compiler: BpfCompiler of CompilerSet/Compiler.py, on a fresh compiler. A method is a
--     function from the state to what it appends to `instructions` and the state after it
--     (Compiler/Code); Protocol, Address, Transport, Keyword, Values and Boolean have its methods,
--     and Assemble the assembler and `compile`. The library's parsers and resolvers are fields of
--     `Platform`. Compiler/Scope says which code keeps to its labels, Compiler/Scoped and its
--     children show it of each method, Assemble's children of the assembler, and Compiler/Total puts
--     compiler, optimiser and emulator together. Compiler/Answers and Compiler/Meaning give filters a meaning that
--     does not speak of code: an answer for each packet, or that the packet is too short. Compiler/Symbolic
--     runs emitted code with its labels, Compiler/Sound and its children put pieces of such code
--     together, Assemble/Exact to Assemble/Correct follow them through the assembler, and
--     Compiler/Correct joins the two. Compiler/Host and Compiler/HostMac have what a host
--     filter means, by the fields of a packet in Emulator/Fields, and Compiler/DualStack runs one of a transport protocol.
--   LightBpf/Program: a program as the bytes of Instruction.py's to_bytes and as the array of Fprog.py,
--     in either byte order.
--   LightBpf/Simulation: when two programs have the same outcomes, and the simulations that show it.
--   LightBpf/Peephole: the passes of Peephole.py. A set of instruction indices is a list with a
--     Boolean for each instruction; an instruction changed in place is a list with it replaced.
--   Utils/Checksum: utils/Checksum.py, with the sum as a number in Utils/Checksum/Sums.
--   Utils/Fcs: utils/FCS.py. Both CRC loops are `crc_bytes`, at their own width and polynomial;
--     `binascii.crc32` is a parameter.
--   Utils/Fragmentation, Utils/Fragmentation/Ipv6: fragment4 and fragment6 of
--     utils/fragmentation.py. The layer that is found, the bytes of the packet, which its own
--     `build` gives, and the random identification are arguments; `new_ipv4` and `new_ipv6` are the
--     masks of the constructors in ipv4.py and ipv6.py.
--   Helper/IpOptions, Helper/TcpOptions: helper/ipv4/IPOptions.py and helper/tcp/TCPOptions.py.
--   Layers/Udp: udp.py over a payload of bytes, with packed addresses as arguments.
--   Layers/Vlan: Vlan.py. A stack is the list of its tags over the bytes of the layer below.
--
-- Fuel. The parser has a unit for each level of nesting and, in a loop, for each operator; each takes
-- a token at least. `run` takes a unit for each round; Emulator/Forward shows how much a program without
-- backward jumps needs. The assembler's `resolve` has a unit for each instruction, and
-- Compiler/Assemble/Loop says what it is by rounds of the source's loop, without fuel. `resolve_loop`
-- and the worklist of `mark` are given a unit for each instruction or jump that can be visited.
-- The loops of the parsers and `fragment_loop` have the length of their input, of which each
-- round takes a byte at least.
--
-- Exceptions are values of a result type. The logger's `error` raises: TypeError for truncated
-- data and for refused fragmentation, since its table names no class there.
--
-- Not modelled: the lexer of filters and the text handling of a net without a mask,
-- the other layers, CIDR ranges and capture files; sockets, interfaces, system queries, printing
-- and the C library, which are I/O or text.
pub mod Base
pub mod LightBpf
pub mod Utils
pub mod Helper
pub mod Layers

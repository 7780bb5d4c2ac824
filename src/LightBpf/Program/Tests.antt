-- ===== src/LightBpf/Program/Tests.antt =====
-- A program as bytes and as an array.
use light_packet.Base.{ℕ, true, List, [], ◌∷◌, ◌≡◌, refl}
use light_packet.Base.Int.{pos, negsuc, low_bits}
use light_packet.Base.Exceptions.{ok}
use light_packet.LightBpf.Instruction.{Instruction}
use light_packet.LightBpf.Program.{
  two_bytes, four_bytes, in_range, to_bytes, program_bytes, read_program, to_fprog,
  program_bytes-to_fprog,
}

-- A test of the Ethernet type, and a return of -1.
abbrev sample : List Instruction
sample =
    record { code = 21; jt = pos 0; jf = pos 3; k = pos 0x0800 }
    ∷ record { code = 6; jt = pos 0; jf = pos 0; k = negsuc 0 }
    ∷ []

abbrev sample_bytes : List ℕ
sample_bytes = 21 ∷ 0 ∷ 0 ∷ 3 ∷ 0 ∷ 8 ∷ 0 ∷ 0 ∷ 6 ∷ 0 ∷ 0 ∷ 0 ∷ 255 ∷ 255 ∷ 255 ∷ 255 ∷ []

sample_program : program_bytes true sample ≡ ok sample_bytes
unfolding program_bytes to_bytes in_range two_bytes four_bytes low_bits
sample_program = refl

program_bytes-to_fprog_example : read_program true sample_bytes ≡ (to_fprog sample).filter
program_bytes-to_fprog_example = program_bytes-to_fprog true sample sample_bytes sample_program

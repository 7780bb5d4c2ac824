-- ===== src/LightBpf/Peephole/Optimize.antt =====
-- The whole optimiser.
use light_packet.Base.{ℕ, List}
use light_packet.LightBpf.Instruction.{Instruction}
use light_packet.LightBpf.Simulation.{SameOutcomes, SameOutcomes-trans}
use light_packet.LightBpf.Peephole.{remove_noop_jumps, thread_jumps, eliminate_dead_code, optimize}
use light_packet.LightBpf.Peephole.Noop.{remove_noop_jumps-SameOutcomes}
use light_packet.LightBpf.Peephole.Thread.{thread_jumps-SameOutcomes}
use light_packet.LightBpf.Peephole.Dead.{eliminate_dead_code-SameOutcomes}

-- An optimised program has, on every packet, exactly the outcomes of the program it comes from: the
-- emulator returns the same value, raises the same exception, or fails to end as before.
pub optimize-SameOutcomes :
    (packet : List ℕ) (code : List Instruction) → SameOutcomes packet code (optimize code)
unfolding optimize
optimize-SameOutcomes packet code =
    SameOutcomes-trans packet code (remove_noop_jumps code) _
      (remove_noop_jumps-SameOutcomes packet code)
      (SameOutcomes-trans packet (remove_noop_jumps code) (thread_jumps (remove_noop_jumps code)) _
        (thread_jumps-SameOutcomes packet (remove_noop_jumps code))
        (SameOutcomes-trans packet (thread_jumps (remove_noop_jumps code))
          (eliminate_dead_code (thread_jumps (remove_noop_jumps code))) _
          (eliminate_dead_code-SameOutcomes packet (thread_jumps (remove_noop_jumps code)))
          (thread_jumps-SameOutcomes packet
            (eliminate_dead_code (thread_jumps (remove_noop_jumps code))))))

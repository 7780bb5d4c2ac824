-- ===== src/LightBpf/Compiler/Host.antt =====
-- What the filters of LightBPF/CompilerSet/Compiler.py for an IPv4 host accept.
use Prim.Native.String.{String}
use light_packet.Base.{
  ℕ, Bool, true, false, ◌&&◌, ◌||◌, none, List, [], ◌∷◌, if◌then◌else◌, ◌≡◌, refl, arith,
}
use light_packet.Base.Int.{pos, ◌-ℤ◌}
use light_packet.Base.Exceptions.{ok}
use light_packet.LightBpf.Opcode.{bpf_max_buf_len, insn_class, insn_op}
use light_packet.LightBpf.Instruction.{Instruction}
use light_packet.LightBpf.Ast.{
  Direction, src, dst, src_and_dst, src_or_dst, str_value, KeywordFilter, keyword_filter,
}
use light_packet.LightBpf.Emulator.{returned, start, execute}
use light_packet.LightBpf.Emulator.Fields.{
  field_at, has_field, has_field-none, instruction, ldh-IsLoad, ldw-IsLoad, EndsFrom, ret-EndsFrom,
  branch-EndsFrom,
}
use light_packet.LightBpf.Simulation.{Executes}
use light_packet.LightBpf.Compiler.Platform.{Platform}
use light_packet.LightBpf.Compiler.Assemble.{
  compile, assemble_and_backpatch, with_returns, clean, label_map, patch_from, patch_insn, patch,
  check_offset, index_of, resolve, jump_label, label_eqb, finish,
}
use light_packet.LightBpf.Compiler.Code.{◌▸◌, emit, reading, new_label, attempt}
use light_packet.LightBpf.Compiler.Address.{
  compile_host_filter, text_of, host_ipv4, guard_ethertype, source_first, by_direction, match_ipv4,
}
use light_packet.LightBpf.Compiler.Total.{compile-optimize}
use light_packet.LightBpf.Compiler.Keyword.{compile_keyword}
use light_packet.LightBpf.Compiler.Boolean.{compile_bool}
use light_packet.LightBpf.Peephole
use light_packet.LightBpf.Peephole.Optimize.{optimize-SameOutcomes}

-- `host` with an IPv4 address.
abbrev pub host_filter : String → Direction → KeywordFilter
host_filter address direction = record {
  keyword = "host";
  value = str_value address;
  direction = direction;
  protocol = none;
  value_type = "ipv4";
  mask = none;
}

-- A packet that the filter means: IPv4 behind Ethernet, from or to the address.
abbrev pub is_from : ℕ → List ℕ → Bool
is_from ip packet = has_field packet 26 4 ip

abbrev pub is_to : ℕ → List ℕ → Bool
is_to ip packet = has_field packet 30 4 ip

abbrev pub is_between : Direction → ℕ → List ℕ → Bool
is_between src ip packet = is_from ip packet
is_between dst ip packet = is_to ip packet
is_between src_and_dst ip packet = is_from ip packet && is_to ip packet
is_between src_or_dst ip packet = is_from ip packet || is_to ip packet

abbrev pub is_host : Direction → ℕ → List ℕ → Bool
is_host direction ip packet = has_field packet 12 2 0x0800 && is_between direction ip packet

abbrev pub verdict : Bool → ℕ
verdict b = if b then bpf_max_buf_len else 0

-- The code, before the optimiser.
abbrev one_test : ℕ → ℕ → List Instruction
one_test off ip =
    instruction 40 0 0 12
    ∷ instruction 21 0 3 0x0800
    ∷ instruction 32 0 0 off
    ∷ instruction 21 0 1 ip
    ∷ instruction 6 0 0 bpf_max_buf_len
    ∷ instruction 6 0 0 0
    ∷ []

abbrev two_tests : ℕ → ℕ → ℕ → List Instruction
two_tests t f ip =
    instruction 40 0 0 12
    ∷ instruction 21 0 5 0x0800
    ∷ instruction 32 0 0 26
    ∷ instruction 21 t f ip
    ∷ instruction 32 0 0 30
    ∷ instruction 21 0 1 ip
    ∷ instruction 6 0 0 bpf_max_buf_len
    ∷ instruction 6 0 0 0
    ∷ []

abbrev host_code : Direction → ℕ → List Instruction
host_code src ip = one_test 26 ip
host_code dst ip = one_test 30 ip
host_code src_and_dst ip = two_tests 0 3 ip
host_code src_or_dst ip = two_tests 2 0 ip

module _ (ip : ℕ) (packet : List ℕ) where
  one_test-EndsFrom :
      (off : ℕ)
      → EndsFrom
          (one_test off ip)
          packet
          0
          (verdict (has_field packet 12 2 0x0800 && has_field packet off 4 ip))
  one_test-EndsFrom off =
      branch-EndsFrom _ packet 0 12 2 0x0800 0 3 _ _ (ldh-IsLoad packet 12) refl refl
        (λ lacks. rw (has_field-none packet 12 2 0x0800 lacks) refl)
        (λ ipv4.
          branch-EndsFrom _ packet 2 off 4 ip 0 1 _ _ (ldw-IsLoad packet off) refl refl
            (λ lacks. rw (ipv4, has_field-none packet off 4 ip lacks) refl)
            (λ same. rw (ipv4, same) (ret-EndsFrom _ packet 4 0 0 bpf_max_buf_len refl))
            (λ apart. rw (ipv4, apart) (ret-EndsFrom _ packet 5 0 0 0 refl)))
        (λ other. rw other (ret-EndsFrom _ packet 5 0 0 0 refl))

  -- Where the packet ends before the source address it has no destination either.
  shorter : field_at packet 26 4 ≡ none → field_at packet 30 4 ≡ none
  unfolding field_at
  shorter e = ground arith

  and-EndsFrom : EndsFrom (two_tests 0 3 ip) packet 0 (verdict (is_host src_and_dst ip packet))
  and-EndsFrom =
      branch-EndsFrom _ packet 0 12 2 0x0800 0 5 _ _ (ldh-IsLoad packet 12) refl refl
        (λ lacks. rw (has_field-none packet 12 2 0x0800 lacks) refl)
        (λ ipv4.
          branch-EndsFrom _ packet 2 26 4 ip 0 3 _ _ (ldw-IsLoad packet 26) refl refl
            (λ lacks. rw (ipv4, has_field-none packet 26 4 ip lacks) refl)
            (λ same.
              branch-EndsFrom _ packet 4 30 4 ip 0 1 _ _ (ldw-IsLoad packet 30) refl refl
                (λ lacks. rw (ipv4, same, has_field-none packet 30 4 ip lacks) refl)
                (λ both. rw (ipv4, same, both) (ret-EndsFrom _ packet 6 0 0 bpf_max_buf_len refl))
                (λ apart. rw (ipv4, same, apart) (ret-EndsFrom _ packet 7 0 0 0 refl)))
            (λ apart. rw (ipv4, apart) (ret-EndsFrom _ packet 7 0 0 0 refl)))
        (λ other. rw other (ret-EndsFrom _ packet 7 0 0 0 refl))

  or-EndsFrom : EndsFrom (two_tests 2 0 ip) packet 0 (verdict (is_host src_or_dst ip packet))
  or-EndsFrom =
      branch-EndsFrom _ packet 0 12 2 0x0800 0 5 _ _ (ldh-IsLoad packet 12) refl refl
        (λ lacks. rw (has_field-none packet 12 2 0x0800 lacks) refl)
        (λ ipv4.
          branch-EndsFrom _ packet 2 26 4 ip 2 0 _ _ (ldw-IsLoad packet 26) refl refl
            (λ lacks.
              rw
                (
                  ipv4,
                  has_field-none packet 26 4 ip lacks,
                  has_field-none packet 30 4 ip (shorter lacks),
                )
                refl)
            (λ same. rw (ipv4, same) (ret-EndsFrom _ packet 6 0 0 bpf_max_buf_len refl))
            (λ apart.
              branch-EndsFrom _ packet 4 30 4 ip 0 1 _ _ (ldw-IsLoad packet 30) refl refl
                (λ lacks. rw (ipv4, apart, has_field-none packet 30 4 ip lacks) refl)
                (λ second.
                  rw (ipv4, apart, second) (ret-EndsFrom _ packet 6 0 0 bpf_max_buf_len refl))
                (λ neither. rw (ipv4, apart, neither) (ret-EndsFrom _ packet 7 0 0 0 refl))))
        (λ other. rw other (ret-EndsFrom _ packet 7 0 0 0 refl))

  host_code-EndsFrom :
      (direction : Direction)
      → EndsFrom (host_code direction ip) packet 0 (verdict (is_host direction ip packet))
  host_code-EndsFrom src = one_test-EndsFrom 26
  host_code-EndsFrom dst = one_test-EndsFrom 30
  host_code-EndsFrom src_and_dst = and-EndsFrom
  host_code-EndsFrom src_or_dst = or-EndsFrom

  host_code-Executes :
      (direction : Direction)
      → Executes
          (host_code direction ip)
          packet
          (returned (pos (verdict (is_host direction ip packet))))
  unfolding execute
  host_code-Executes direction = host_code-EndsFrom direction start refl

-- What the compiler emits for a host, where the address can be parsed.
module _ (platform : Platform) (address : String) (ip : ℕ)
    (parsed : platform.inet_aton address ≡ ok ip) where
  compile-host_code :
      (direction : Direction)
      → compile platform 1 false (keyword_filter (host_filter address direction))
        ≡ ok (host_code direction ip)
  unfolding compile compile_bool compile_keyword compile_host_filter text_of host_ipv4
      guard_ethertype source_first by_direction match_ipv4 ◌▸◌ emit reading new_label attempt
      assemble_and_backpatch with_returns clean label_map patch_from patch_insn patch check_offset
      index_of resolve jump_label label_eqb finish insn_class insn_op ◌-ℤ◌
  compile-host_code src = rw parsed refl
  compile-host_code dst = rw parsed refl
  compile-host_code src_and_dst = rw parsed refl
  compile-host_code src_or_dst = rw parsed refl

  -- `host` with an IPv4 address that the library can parse compiles for an Ethernet link, for each of
  -- the four directions, and its program, with or without the optimiser, keeps a packet when the packet
  -- is IPv4 behind Ethernet and has the address in the fields that the direction names; for every other
  -- packet, short ones included, it returns 0.
  pub compile-is_host :
      (optimize : Bool) (direction : Direction)
      → (code : List Instruction) × (compile platform 1 optimize
            (keyword_filter (host_filter address direction))
          ≡ ok code)
        × ((packet : List ℕ)
            → Executes code packet (returned (pos (verdict (is_host direction ip packet)))))
  compile-is_host false direction = (
    host_code direction ip,
    compile-host_code direction,
    λ packet. host_code-Executes ip packet direction,
  )
  compile-is_host true direction = (
    Peephole.optimize (host_code direction ip),
    compile-optimize platform 1 (keyword_filter (host_filter address direction))
        (host_code direction ip) (compile-host_code direction),
    λ packet.
        (optimize-SameOutcomes packet (host_code direction ip) _).0
          (host_code-Executes ip packet direction),
  )

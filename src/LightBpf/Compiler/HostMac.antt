-- ===== src/LightBpf/Compiler/HostMac.antt =====
-- What the filters of LightBPF/CompilerSet/Compiler.py for an Ethernet host accept.
use Prim.Native.String.{String}
use light_packet.Base.{
  ℕ, suc, ◌+◌, Bool, true, false, ◌&&◌, ◌||◌, none, some, List, [], ◌∷◌, ◌≡◌, refl, arith,
  get_elem?,
}
use light_packet.Base.Int.{pos, ◌-ℤ◌}
use light_packet.Base.Exceptions.{ok}
use light_packet.LightBpf.Opcode.{bpf_max_buf_len, insn_class, insn_op}
use light_packet.LightBpf.Instruction.{Instruction}
use light_packet.LightBpf.Ast.{
  Direction, src, dst, src_and_dst, src_or_dst, str_value, KeywordFilter, keyword_filter,
}
use light_packet.LightBpf.Emulator.{returned, start, execute}
use light_packet.LightBpf.Emulator.Fields.{
  field_at, has_field, has_field-none, instruction, ldh-IsLoad, ldw-IsLoad, EndsFrom, ret-EndsFrom,
  branch-EndsFrom,
}
use light_packet.LightBpf.Simulation.{Executes}
use light_packet.LightBpf.Peephole
use light_packet.LightBpf.Peephole.Optimize.{optimize-SameOutcomes}
use light_packet.LightBpf.Compiler.Platform.{Platform}
use light_packet.LightBpf.Compiler.Assemble.{
  compile, assemble_and_backpatch, with_returns, clean, label_map, patch_from, patch_insn, patch,
  check_offset, index_of, resolve, jump_label, label_eqb, finish,
}
use light_packet.LightBpf.Compiler.Code.{◌▸◌, emit, new_label, attempt}
use light_packet.LightBpf.Compiler.Address.{
  compile_host_filter, text_of, host_mac, by_direction, match_mac,
}
use light_packet.LightBpf.Compiler.Keyword.{compile_keyword}
use light_packet.LightBpf.Compiler.Boolean.{compile_bool}
use light_packet.LightBpf.Compiler.Total.{compile-optimize}
use light_packet.LightBpf.Compiler.Host.{verdict}

-- `host` with an Ethernet address.
abbrev pub mac_filter : String → Direction → KeywordFilter
mac_filter address direction = record {
  keyword = "host";
  value = str_value address;
  direction = direction;
  protocol = some "ether";
  value_type = "mac";
  mask = none;
}

-- The frame has the address at an offset: the destination stands at 0, and the source at 6.
abbrev pub has_mac : List ℕ → ℕ → ℕ × ℕ → Bool
has_mac packet off mac = has_field packet off 4 mac.0 && has_field packet (off + 4) 2 mac.1

abbrev pub is_mac_host : Direction → ℕ × ℕ → List ℕ → Bool
is_mac_host src mac packet = has_mac packet 6 mac
is_mac_host dst mac packet = has_mac packet 0 mac
is_mac_host src_and_dst mac packet = has_mac packet 0 mac && has_mac packet 6 mac
is_mac_host src_or_dst mac packet = has_mac packet 0 mac || has_mac packet 6 mac

-- The code, before the optimiser.
abbrev one_test : ℕ → ℕ × ℕ → List Instruction
one_test off mac =
    instruction 32 0 0 off
    ∷ instruction 21 0 3 mac.0
    ∷ instruction 40 0 0 (off + 4)
    ∷ instruction 21 0 1 mac.1
    ∷ instruction 6 0 0 bpf_max_buf_len
    ∷ instruction 6 0 0 0
    ∷ []

abbrev two_tests : ℕ → ℕ → ℕ → ℕ × ℕ → List Instruction
two_tests f1 t2 f2 mac =
    instruction 32 0 0 0
    ∷ instruction 21 0 f1 mac.0
    ∷ instruction 40 0 0 4
    ∷ instruction 21 t2 f2 mac.1
    ∷ instruction 32 0 0 6
    ∷ instruction 21 0 3 mac.0
    ∷ instruction 40 0 0 10
    ∷ instruction 21 0 1 mac.1
    ∷ instruction 6 0 0 bpf_max_buf_len
    ∷ instruction 6 0 0 0
    ∷ []

abbrev mac_code : Direction → ℕ × ℕ → List Instruction
mac_code src mac = one_test 6 mac
mac_code dst mac = one_test 0 mac
mac_code src_and_dst mac = two_tests 7 0 5 mac
mac_code src_or_dst mac = two_tests 2 4 0 mac

-- The test of an address by its two parts.
mac-EndsFrom :
    (code : List Instruction) (packet : List ℕ) (i off f1 t2 f2 out : ℕ) (mac : ℕ × ℕ)
    → get_elem? code i ≡ some (instruction 32 0 0 off)
    → get_elem? code (suc i) ≡ some (instruction 21 0 f1 mac.0)
    → get_elem? code (suc (suc i) + 0) ≡ some (instruction 40 0 0 (off + 4))
    → get_elem? code (suc (suc (suc i) + 0)) ≡ some (instruction 21 t2 f2 mac.1)
    → (field_at packet off 4 ≡ none → out ≡ 0)
    → (field_at packet (off + 4) 2 ≡ none → out ≡ 0)
    → (has_mac packet off mac ≡ true → EndsFrom code packet (suc (suc (suc (suc i) + 0)) + t2) out)
    → (has_mac packet off mac ≡ false → EndsFrom code packet (suc (suc i) + f1) out)
    → (has_mac packet off mac ≡ false → EndsFrom code packet (suc (suc (suc (suc i) + 0)) + f2) out)
    → EndsFrom code packet i out
mac-EndsFrom code packet i off f1 t2 f2 out mac c0 c1 c2 c3 lacks4 lacks2 hit no1 no2 =
    branch-EndsFrom code packet i off 4 mac.0 0 f1 out _ (ldw-IsLoad packet off) c0 c1 lacks4
      (λ first.
        branch-EndsFrom code packet _ (off + 4) 2 mac.1 t2 f2 out _ (ldh-IsLoad packet (off + 4)) c2
          c3 lacks2 (λ second. hit (rw (first, second) refl))
          (λ apart. no2 (rw (first, apart) refl)))
      (λ apart. no1 (rw apart refl))

module _ (mac : ℕ × ℕ) (packet : List ℕ) where
  lacks-has_mac4 : (off : ℕ) → field_at packet off 4 ≡ none → has_mac packet off mac ≡ false
  lacks-has_mac4 off e = rw (has_field-none packet off 4 mac.0 e) refl

  lacks-has_mac2 : (off : ℕ) → field_at packet (off + 4) 2 ≡ none → has_mac packet off mac ≡ false
  lacks-has_mac2 off e = ground (arith, has_field-none packet (off + 4) 2 mac.1 e)

  -- A frame that ends in the destination has no source.
  shorter4 : field_at packet 0 4 ≡ none → field_at packet 6 4 ≡ none
  unfolding field_at
  shorter4 e = ground arith

  shorter2 : field_at packet 4 2 ≡ none → field_at packet 6 4 ≡ none
  unfolding field_at
  shorter2 e = ground arith

  one_test-EndsFrom :
      (off : ℕ) → EndsFrom (one_test off mac) packet 0 (verdict (has_mac packet off mac))
  one_test-EndsFrom off =
      mac-EndsFrom _ packet 0 off 3 0 1 _ mac refl refl refl refl
        (λ e. rw (lacks-has_mac4 off e) refl) (λ e. rw (lacks-has_mac2 off e) refl)
        (λ e. rw e (ret-EndsFrom _ packet 4 0 0 bpf_max_buf_len refl))
        (λ e. rw e (ret-EndsFrom _ packet 5 0 0 0 refl))
        (λ e. rw e (ret-EndsFrom _ packet 5 0 0 0 refl))

  -- The test of the source, which stands second, from 4 on.
  source-EndsFrom :
      (f1 t2 f2 out : ℕ)
      → (has_mac packet 6 mac ≡ true → out ≡ bpf_max_buf_len)
      → (has_mac packet 6 mac ≡ false → out ≡ 0)
      → EndsFrom (two_tests f1 t2 f2 mac) packet 4 out
  source-EndsFrom f1 t2 f2 out yes_source no_source =
      mac-EndsFrom _ packet 4 6 3 0 1 out mac refl refl refl refl
        (λ e. no_source (lacks-has_mac4 6 e)) (λ e. no_source (lacks-has_mac2 6 e))
        (λ e. rw (yes_source e) (ret-EndsFrom _ packet 8 0 0 bpf_max_buf_len refl))
        (λ e. rw (no_source e) (ret-EndsFrom _ packet 9 0 0 0 refl))
        (λ e. rw (no_source e) (ret-EndsFrom _ packet 9 0 0 0 refl))

  and-EndsFrom :
      EndsFrom (two_tests 7 0 5 mac) packet 0 (verdict (is_mac_host src_and_dst mac packet))
  and-EndsFrom =
      mac-EndsFrom _ packet 0 0 7 0 5 _ mac refl refl refl refl (λ e. rw (lacks-has_mac4 0 e) refl)
        (λ e. rw (lacks-has_mac2 0 e) refl)
        (λ e. source-EndsFrom 7 0 5 _ (λ e'. rw (e, e') refl) (λ e'. rw (e, e') refl))
        (λ e. rw e (ret-EndsFrom _ packet 9 0 0 0 refl))
        (λ e. rw e (ret-EndsFrom _ packet 9 0 0 0 refl))

  or-EndsFrom :
      EndsFrom (two_tests 2 4 0 mac) packet 0 (verdict (is_mac_host src_or_dst mac packet))
  or-EndsFrom =
      mac-EndsFrom _ packet 0 0 2 4 0 _ mac refl refl refl refl
        (λ e. rw (lacks-has_mac4 0 e, lacks-has_mac4 6 (shorter4 e)) refl)
        (λ e. rw (lacks-has_mac2 0 e, lacks-has_mac4 6 (shorter2 e)) refl)
        (λ e. rw e (ret-EndsFrom _ packet 8 0 0 bpf_max_buf_len refl))
        (λ e. source-EndsFrom 2 4 0 _ (λ e'. rw (e, e') refl) (λ e'. rw (e, e') refl))
        (λ e. source-EndsFrom 2 4 0 _ (λ e'. rw (e, e') refl) (λ e'. rw (e, e') refl))

  mac_code-EndsFrom :
      (direction : Direction)
      → EndsFrom (mac_code direction mac) packet 0 (verdict (is_mac_host direction mac packet))
  mac_code-EndsFrom src = one_test-EndsFrom 6
  mac_code-EndsFrom dst = one_test-EndsFrom 0
  mac_code-EndsFrom src_and_dst = and-EndsFrom
  mac_code-EndsFrom src_or_dst = or-EndsFrom

  mac_code-Executes :
      (direction : Direction)
      → Executes
          (mac_code direction mac)
          packet
          (returned (pos (verdict (is_mac_host direction mac packet))))
  unfolding execute
  mac_code-Executes direction = mac_code-EndsFrom direction start refl

module _ (platform : Platform) (address : String) (mac : ℕ × ℕ)
    (parsed : platform.mac_address address ≡ ok mac) where
  compile-mac_code :
      (direction : Direction)
      → compile platform 1 false (keyword_filter (mac_filter address direction))
        ≡ ok (mac_code direction mac)
  unfolding compile compile_bool compile_keyword compile_host_filter text_of host_mac by_direction
      match_mac ◌▸◌ emit new_label attempt assemble_and_backpatch with_returns clean label_map
      patch_from patch_insn patch check_offset index_of resolve jump_label label_eqb finish
      insn_class insn_op ◌-ℤ◌
  compile-mac_code src = rw parsed refl
  compile-mac_code dst = rw parsed refl
  compile-mac_code src_and_dst = rw parsed refl
  compile-mac_code src_or_dst = rw parsed refl

  -- `host` with an Ethernet address that the library can parse, as its first four bytes and its last
  -- two, compiles for an Ethernet link, for each of the four directions, and its program, with or without
  -- the optimiser, keeps a frame when it has the address as its source or its destination, as the
  -- direction says; for every other frame, short ones included, it returns 0.
  pub compile-is_mac_host :
      (optimize : Bool) (direction : Direction)
      → (code : List Instruction) × (compile platform 1 optimize
            (keyword_filter (mac_filter address direction))
          ≡ ok code)
        × ((packet : List ℕ)
            → Executes code packet (returned (pos (verdict (is_mac_host direction mac packet)))))
  compile-is_mac_host false direction = (
    mac_code direction mac,
    compile-mac_code direction,
    λ packet. mac_code-Executes mac packet direction,
  )
  compile-is_mac_host true direction = (
    Peephole.optimize (mac_code direction mac),
    compile-optimize platform 1 (keyword_filter (mac_filter address direction))
        (mac_code direction mac) (compile-mac_code direction),
    λ packet.
        (optimize-SameOutcomes packet (mac_code direction mac) _).0
          (mac_code-Executes mac packet direction),
  )

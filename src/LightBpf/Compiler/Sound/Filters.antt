-- ===== src/LightBpf/Compiler/Sound/Filters.antt =====
-- LightBPF/CompilerSet/Compiler.py: what the other filters and the comparisons decide.
use light_packet.Base.{
  ℕ, ◌^◌, ◌%◌, bit_and, Bool, true, false, not, Option, none, some, List, [], ◌∷◌, length, ◌==◌,
  ltb, leb, if◌then◌else◌, ◌≡◌, refl, sym, arith,
}
use light_packet.Base.Int.{int_and}
use light_packet.Base.Text.{text_eqb}
use light_packet.Base.Exceptions.{Result, ok, raise, ◌>>=◌}
use light_packet.LightBpf.Opcode.{bpf_and}
use light_packet.LightBpf.Ast.{Direction, KeywordFilter}
use light_packet.LightBpf.Emulator.{alu}
use light_packet.LightBpf.Compiler.Code.{
  plain, cond, emit, ◌▸◌, attempt, and_k, ldw_abs, ldb_abs, ld_len, jeq_k, jgt_k, jge_k, jset_k,
}
use light_packet.LightBpf.Compiler.Platform.{Platform}
use light_packet.LightBpf.Compiler.Address.{
  Branch, source_first, match_net, net_ipv4, text_of, compile_host_filter,
}
use light_packet.LightBpf.Compiler.Keyword.{compile_multicast_filter}
use light_packet.LightBpf.Compiler.Values.{alu_k}
use light_packet.LightBpf.Compiler.Answers.{
  short, elsewhere, value, Reading, field_reading, bind_reading, bind_answer, network_at,
  network_answer,
}
use light_packet.LightBpf.Compiler.Meaning.{operation, Meaning, of_result, host_meaning}
use light_packet.LightBpf.Compiler.Sound.Connectives.{Decides}
use light_packet.LightBpf.Compiler.Sound.Jumps.{
  jeq-IsTest, jgt-IsTest, jge-IsTest, jset-IsTest, test-Decides, swapped-Decides, guarded-Decides,
  ldw-Yields, ldb-Yields,
}
use light_packet.LightBpf.Compiler.Sound.Addresses.{
  source_first-Decides, host_ipv4-Decides, host_ipv6-Decides, host_mac-Decides,
}
use light_packet.LightBpf.Compiler.Sound.Loads.{
  arithmetic-Yields, length-Yields, bpf_and-IsOperation,
}

-- The meaning of a filter is what its code decides, where it has one.
abbrev pub Means : Meaning → Branch → Type 0
Means none p = Unit
Means (some m) p = (packet : List ℕ) → Decides packet (m packet) p

pub Means-if :
    (b : Bool) (m m' : Meaning) (p p' : Branch)
    → Means m p
    → Means m' p'
    → Means (if b then m else m') (λ t f. if b then p t f else p' t f)
Means-if true m m' p p' h k = h
Means-if false m m' p p' h k = k

pub attempt-Means {ℓ} :
    {A : Type ℓ} (r : Result A) (k : A → List ℕ → Option Bool) (p : A → Branch)
    → ((a : A) (packet : List ℕ) → Decides packet (k a packet) (p a))
    → Means (of_result r k) (λ t f. attempt r (λ a. p a t f))
unfolding attempt
attempt-Means (raise e) k p h = tt
attempt-Means (ok a) k p h = h a

pub host-Means :
    (platform : Platform) (node : KeywordFilter)
    → Means (host_meaning platform node) (compile_host_filter platform node)
unfolding host_meaning compile_host_filter
host-Means platform node =
    Means-if (text_eqb node.value_type "ipv4") _ _ _ _
      (attempt-Means (text_of node.value >>= platform.inet_aton) _ _
        (λ ip packet. host_ipv4-Decides packet ip node.direction))
      (Means-if (text_eqb node.value_type "ipv6") _ _ _ _
        (attempt-Means (text_of node.value >>= platform.ipv6_address) _ _
          (λ words packet. host_ipv6-Decides packet words node.direction))
        (Means-if (text_eqb node.value_type "mac") _ none _ _
          (attempt-Means (text_of node.value >>= platform.mac_address) _ _
            (λ mac packet. host_mac-Decides packet mac node.direction))
          tt))

-- The address under the mask.
masked_answer :
    (mask v : ℕ) (r : Reading)
    → bind_answer (λ w. some (w == v)) (bind_reading (operation bpf_and mask) r)
      ≡ bind_answer (λ w. some (bit_and w mask % 2 ^ 32 == v)) r
unfolding bind_answer bind_reading operation alu int_and
masked_answer mask v short = refl
masked_answer mask v elsewhere = refl
masked_answer mask v (value w) = refl

module _ (packet : List ℕ) where
  mask-Decides :
      (whole : Bool) (mask v off : ℕ)
      → Decides packet
          (bind_answer
            (λ w. some ((if whole then w else bit_and w mask % 2 ^ 32) == v))
            (field_reading packet off 4))
          (λ t f.
            emit (plain ldw_abs off ∷ [])
            ▸ (if whole then emit [] else emit (plain and_k mask ∷ []))
            ▸ emit (cond jeq_k t f v ∷ []))
  unfolding emit ◌▸◌ alu_k
  mask-Decides true mask v off =
      test-Decides packet jeq_k v (λ w. w == v) (field_reading packet off 4)
        (λ f. emit (plain ldw_abs off ∷ [])) (jeq-IsTest v) (ldw-Yields packet off)
  mask-Decides false mask v off = rw (sym (masked_answer mask v (field_reading packet off 4))) (
      test-Decides packet jeq_k v (λ w. w == v)
        (bind_reading (operation bpf_and mask) (field_reading packet off 4))
        (λ f. emit (plain ldw_abs off ∷ []) ▸ emit (plain and_k mask ∷ [])) (jeq-IsTest v)
        (arithmetic-Yields packet bpf_and mask (field_reading packet off 4)
          (λ f. emit (plain ldw_abs off ∷ [])) bpf_and-IsOperation (ldw-Yields packet off)))

  match_net-Decides :
      (net : ℕ × ℕ) (off : ℕ) → Decides packet (network_at net off packet) (match_net net off)
  unfolding network_at match_net
  match_net-Decides net off = mask-Decides (net.1 == 0xffffffff) net.1 net.0 off

  pub net_ipv4-Decides :
      (net : ℕ × ℕ) (direction : Direction)
      → Decides packet (network_answer net direction packet) (net_ipv4 net direction)
  unfolding network_answer net_ipv4
  net_ipv4-Decides net direction =
      guarded-Decides packet 0x0800 _ (source_first (match_net net) 26 30 direction) (
        source_first-Decides packet (λ off. network_at net off packet) (match_net net) 26 30
          direction (match_net-Decides net))

  at_most :
      (n : ℕ)
      → bind_answer (λ w. some (not (ltb n w))) (value (length packet))
        ≡ some (leb (length packet) n)
  unfolding bind_answer
  at_most n = ground arith

  pub length-Decides :
      (less : Bool) (n : ℕ)
      → Decides packet
          (some (if less then leb (length packet) n else leb n (length packet)))
          (λ t f.
            if less
            then emit (plain ld_len 0 ∷ cond jgt_k f t n ∷ [])
            else emit (plain ld_len 0 ∷ cond jge_k t f n ∷ []))
  unfolding emit ◌▸◌ bind_answer
  length-Decides true n = rw (sym (at_most n)) (
      swapped-Decides packet jgt_k n (λ w. ltb n w) (value (length packet))
        (λ f. emit (plain ld_len 0 ∷ [])) (jgt-IsTest n) (length-Yields packet))
  length-Decides false n =
      test-Decides packet jge_k n (λ w. leb n w) (value (length packet))
        (λ f. emit (plain ld_len 0 ∷ [])) (jge-IsTest n) (length-Yields packet)

  pub multicast-Decides :
      Decides packet
        (bind_answer (λ w. some (not (bit_and w 1 == 0))) (field_reading packet 0 1))
        compile_multicast_filter
  unfolding compile_multicast_filter emit ◌▸◌
  multicast-Decides =
      test-Decides packet jset_k 1 (λ w. not (bit_and w 1 == 0)) (field_reading packet 0 1)
        (λ f. emit (plain ldb_abs 0 ∷ [])) (jset-IsTest 1) (ldb-Yields packet 0)

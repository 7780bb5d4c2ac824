-- ===== src/LightBpf/Compiler/Sound/Addresses.antt =====
-- LightBPF/CompilerSet/Compiler.py: what the filters for hosts and IPv4 networks decide.
use light_packet.Base.{ℕ, ◌+◌, Bool, Option, List, [], ◌∷◌, ◌==◌}
use light_packet.LightBpf.Ast.{Direction, src, dst, src_and_dst, src_or_dst}
use light_packet.LightBpf.Compiler.Code.{plain, cond, emit, ◌▸◌, new_label, ldh_abs, jeq_k}
use light_packet.LightBpf.Compiler.Platform.{Words}
use light_packet.LightBpf.Compiler.Address.{
  Branch, by_direction, source_first, match_ipv4, match_ipv6, match_mac, host_ipv4, host_ipv6,
  host_mac,
}
use light_packet.LightBpf.Compiler.Boolean.{compile_and, compile_or}
use light_packet.LightBpf.Compiler.Keyword.{compile_broadcast_filter}
use light_packet.LightBpf.Compiler.Answers.{
  field_reading, test_field, toward, ipv4_answer, words_at, ipv6_answer, mac_at, mac_answer,
}
use light_packet.LightBpf.Compiler.Sound.Connectives.{Decides, and-Decides, or-Decides}
use light_packet.LightBpf.Compiler.Sound.Jumps.{
  jeq-IsTest, test-Decides, guarded-Decides, ldw-Yields, ldh-Yields,
}

module _ (packet : List ℕ) where
  pub match_ipv4-Decides :
      (ip off : ℕ) → Decides packet (test_field off 4 ip packet) (match_ipv4 ip off)
  unfolding test_field match_ipv4 emit ◌▸◌
  match_ipv4-Decides ip off =
      test-Decides packet jeq_k ip (λ w. w == ip) (field_reading packet off 4)
        (λ f. emit (plain _ off ∷ [])) (jeq-IsTest ip) (ldw-Yields packet off)

  abbrev match_half : ℕ → ℕ → Branch
  match_half v off t f = emit (plain ldh_abs off ∷ cond jeq_k t f v ∷ [])

  match_half-Decides : (v off : ℕ) → Decides packet (test_field off 2 v packet) (match_half v off)
  unfolding test_field emit ◌▸◌
  match_half-Decides v off =
      test-Decides packet jeq_k v (λ w. w == v) (field_reading packet off 2)
        (λ f. emit (plain ldh_abs off ∷ [])) (jeq-IsTest v) (ldh-Yields packet off)

  pub match_mac-Decides :
      (mac : ℕ × ℕ) (off : ℕ) → Decides packet (mac_at mac off packet) (match_mac mac off)
  unfolding mac_at match_mac match_ipv4 compile_and new_label emit ◌▸◌
  match_mac-Decides mac off =
      and-Decides packet (test_field off 4 mac.0 packet) (test_field (off + 4) 2 mac.1 packet)
        (match_ipv4 mac.0 off) (match_half mac.1 (off + 4)) (match_ipv4-Decides mac.0 off)
        (match_half-Decides mac.1 (off + 4))

  pub broadcast-Decides :
      Decides packet (mac_at (0xffffffff, 0xffff) 0 packet) compile_broadcast_filter
  unfolding match_mac compile_broadcast_filter
  broadcast-Decides = match_mac-Decides (0xffffffff, 0xffff) 0

  match_ipv6-Decides :
      (words : Words) (off : ℕ) → Decides packet (words_at words off packet) (match_ipv6 words off)
  unfolding words_at match_ipv6 match_ipv4 compile_and new_label emit ◌▸◌
  match_ipv6-Decides words off =
      and-Decides packet _ _ (match_ipv4 words.w0 off)
        (compile_and (match_ipv4 words.w1 (off + 4))
          (compile_and (match_ipv4 words.w2 (off + 8)) (match_ipv4 words.w3 (off + 12))))
        (match_ipv4-Decides words.w0 off)
        (and-Decides packet _ _ (match_ipv4 words.w1 (off + 4))
          (compile_and (match_ipv4 words.w2 (off + 8)) (match_ipv4 words.w3 (off + 12)))
          (match_ipv4-Decides words.w1 (off + 4))
          (and-Decides packet _ _ (match_ipv4 words.w2 (off + 8)) (match_ipv4 words.w3 (off + 12))
            (match_ipv4-Decides words.w2 (off + 8)) (match_ipv4-Decides words.w3 (off + 12))))

  -- The four directions.
  by_direction-Decides :
      (s d first second : Option Bool) (source destination one two : Branch) (direction : Direction)
      → Decides packet s source
      → Decides packet d destination
      → Decides packet first one
      → Decides packet second two
      → Decides packet
          (toward s d first second direction)
          (by_direction source destination one two direction)
  unfolding toward by_direction compile_and compile_or
  by_direction-Decides s d first second source destination one two src hs hd h1 h2 = hs
  by_direction-Decides s d first second source destination one two dst hs hd h1 h2 = hd
  by_direction-Decides s d first second source destination one two src_and_dst hs hd h1 h2 =
      and-Decides packet first second one two h1 h2
  by_direction-Decides s d first second source destination one two src_or_dst hs hd h1 h2 =
      or-Decides packet first second one two h1 h2

  -- A test of one or both of two places, source first.
  pub source_first-Decides :
      (at : ℕ → Option Bool) (check : ℕ → Branch) (s d : ℕ) (direction : Direction)
      → ((off : ℕ) → Decides packet (at off) (check off))
      → Decides packet
          (toward (at s) (at d) (at s) (at d) direction)
          (source_first check s d direction)
  unfolding source_first
  source_first-Decides at check s d direction h =
      by_direction-Decides (at s) (at d) (at s) (at d) (check s) (check d) (check s) (check d)
        direction (h s) (h d) (h s) (h d)

  pub host_ipv4-Decides :
      (ip : ℕ) (direction : Direction)
      → Decides packet (ipv4_answer ip direction packet) (host_ipv4 ip direction)
  unfolding ipv4_answer host_ipv4
  host_ipv4-Decides ip direction =
      guarded-Decides packet 0x0800 _ (source_first (match_ipv4 ip) 26 30 direction) (
        source_first-Decides (λ off. test_field off 4 ip packet) (match_ipv4 ip) 26 30 direction
          (match_ipv4-Decides ip))

  pub host_ipv6-Decides :
      (words : Words) (direction : Direction)
      → Decides packet (ipv6_answer words direction packet) (host_ipv6 words direction)
  unfolding ipv6_answer host_ipv6
  host_ipv6-Decides words direction =
      guarded-Decides packet 0x86dd _ (source_first (match_ipv6 words) 22 38 direction) (
        source_first-Decides (λ off. words_at words off packet) (match_ipv6 words) 22 38 direction
          (match_ipv6-Decides words))

  pub host_mac-Decides :
      (mac : ℕ × ℕ) (direction : Direction)
      → Decides packet (mac_answer mac direction packet) (host_mac mac direction)
  unfolding mac_answer host_mac
  host_mac-Decides mac direction =
      by_direction-Decides _ _ _ _ (match_mac mac 6) (match_mac mac 0) (match_mac mac 0)
        (match_mac mac 6) direction (match_mac-Decides mac 6) (match_mac-Decides mac 0)
        (match_mac-Decides mac 0) (match_mac-Decides mac 6)

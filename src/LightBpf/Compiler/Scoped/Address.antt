-- ===== src/LightBpf/Compiler/Scoped/Address.antt =====
-- The code of LightBPF/CompilerSet/Compiler.py for host and net filters keeps to its labels.
use Prim.Native.String.{String}
use light_packet.Base.{ℕ, ◌||◌, List, ◌∷◌, ◌==◌, refl, inl, inr, ◌+◌}
use light_packet.Base.Text.{text_eqb}
use light_packet.Base.Exceptions.{Result, ◌>>=◌}
use light_packet.LightBpf.Opcode.{insn_class, insn_op}
use light_packet.LightBpf.Ast.{
  Direction, src, dst, src_and_dst, src_or_dst, Value, int_value, str_value, range_value, no_value,
  KeywordFilter,
}
use light_packet.LightBpf.Compiler.Code.{Label, emit, ◌▸◌, reading, new_label}
use light_packet.LightBpf.Compiler.Platform.{Words, Platform}
use light_packet.LightBpf.Compiler.Address.{
  Branch, by_direction, guard_ethertype, match_ipv4, match_ipv6, match_mac, source_first, host_ipv4,
  host_ipv6, host_mac, text_of, compile_host_filter, match_net, match_word, match_net6, net_ipv4,
  net_ipv6, has_mask, compile_net_filter,
}
use light_packet.LightBpf.Compiler.Scope.{IsIn, IsScoped}
use light_packet.LightBpf.Compiler.Scoped.{
  ▸-IsScoped, join-IsScoped, emit-IsScoped, new_label-IsScoped, attempt-IsScoped, fail-IsScoped,
  if-IsScoped, option-IsScoped, IsKnown, IsKnown-bind, IsKeyErrorFree,
}

-- A branch that keeps to its labels, whatever the two that it goes to.
pub record IsBranch (p : Branch) : Type 0 where
  pub scoped :
      (after : List Label) (t f : Label) → IsIn t after → IsIn f after → IsScoped after (p t f)

by_direction-IsBranch :
    {p q r s : Branch}
    → IsBranch p
    → IsBranch q
    → IsBranch r
    → IsBranch s
    → (d : Direction) → IsBranch (by_direction p q r s d)
unfolding by_direction
by_direction-IsBranch hp hq hr hs src = hp
by_direction-IsBranch hp hq hr hs dst = hq
by_direction-IsBranch hp hq hr hs src_and_dst = record {
  scoped = λ after t f ht hf. new_label-IsScoped λ chk.
      join-IsScoped (hr.scoped (chk ∷ after) chk f (inl refl) (inr hf)) (hs.scoped after t f ht hf);
}
by_direction-IsBranch hp hq hr hs src_or_dst = record {
  scoped = λ after t f ht hf. new_label-IsScoped λ chk.
      join-IsScoped (hr.scoped (chk ∷ after) t chk (inr ht) (inl refl)) (hs.scoped after t f ht hf);
}

pub guard_ethertype-IsScoped :
    {after : List Label} (e : ℕ) (f : Label) → IsIn f after → IsScoped after (guard_ethertype e f)
unfolding guard_ethertype emit reading insn_class insn_op
guard_ethertype-IsScoped e f hf = record { emits = λ c h. search }

match_ipv4-IsBranch : (ip off : ℕ) → IsBranch (match_ipv4 ip off)
unfolding match_ipv4 emit insn_class insn_op
match_ipv4-IsBranch ip off = record { scoped = λ after t f ht hf. record { emits = λ c h. search } }

match_ipv6-IsBranch : (words : Words) (off : ℕ) → IsBranch (match_ipv6 words off)
unfolding match_ipv6 emit new_label insn_class insn_op
match_ipv6-IsBranch words off = record {
  scoped = λ after t f ht hf. record { emits = λ c h. search (inl, inr) };
}

match_mac-IsBranch : (mac : ℕ × ℕ) (off : ℕ) → IsBranch (match_mac mac off)
unfolding match_mac emit new_label insn_class insn_op
match_mac-IsBranch mac off = record {
  scoped = λ after t f ht hf. record { emits = λ c h. search (inl, inr) };
}

pub source_first-IsBranch :
    (check : ℕ → Branch) (s d : ℕ) (direction : Direction)
    → ((off : ℕ) → IsBranch (check off))
    → IsBranch (source_first check s d direction)
unfolding source_first
source_first-IsBranch check s d direction h =
    by_direction-IsBranch (h s) (h d) (h s) (h d) direction

-- A test behind the guard on the Ethernet type.
guarded-IsScoped :
    {after : List Label} (e : ℕ) (p : Branch) (t f : Label)
    → IsIn t after
    → IsIn f after
    → IsBranch p
    → IsScoped after (guard_ethertype e f ▸ p t f)
guarded-IsScoped {after} e p t f ht hf hp =
    ▸-IsScoped (guard_ethertype-IsScoped e f hf) (hp.scoped after t f ht hf)

match_net-IsBranch : (net : ℕ × ℕ) (off : ℕ) → IsBranch (match_net net off)
unfolding match_net insn_class insn_op
match_net-IsBranch net off = record {
  scoped = λ after t f ht hf. ▸-IsScoped (emit-IsScoped _ (search)) (
      ▸-IsScoped (if-IsScoped (net.1 == 0xffffffff) (emit-IsScoped _ tt) (emit-IsScoped _ (search)))
        (emit-IsScoped _ (search)));
}

match_word-IsBranch : (net mask off : ℕ) → IsBranch (match_word net mask off)
unfolding match_word insn_class insn_op
match_word-IsBranch net mask off = record {
  scoped = λ after t f ht hf. if-IsScoped (mask == 0) (emit-IsScoped _ (search)) (
      ▸-IsScoped (emit-IsScoped _ (search)) (
        ▸-IsScoped
          (if-IsScoped (mask == 0xffffffff) (emit-IsScoped _ tt) (emit-IsScoped _ (search)))
          (emit-IsScoped _ (search))));
}

match_net6-IsBranch : (net : Words × Words) (off : ℕ) → IsBranch (match_net6 net off)
unfolding match_net6
match_net6-IsBranch net off = record {
  scoped = λ after t f ht hf. new_label-IsScoped λ l0. new_label-IsScoped λ l1.
      new_label-IsScoped λ l2. join-IsScoped (word net.0.w0 net.1.w0 off after l0 f hf) (
        join-IsScoped (word net.0.w1 net.1.w1 (off + 4) after l1 f hf) (
          join-IsScoped (word net.0.w2 net.1.w2 (off + 8) after l2 f hf)
            ((match_word-IsBranch net.0.w3 net.1.w3 (off + 12)).scoped after t f ht hf)));
}
  where
    word :
        (n m o : ℕ) (ls : List Label) (l f : Label)
        → IsIn f ls
        → IsScoped (l ∷ ls) (match_word n m o l f)
    word n m o ls l f hf = (match_word-IsBranch n m o).scoped (l ∷ ls) l f (inl refl) (inr hf)

module _ (direction : Direction) {after : List Label} (t f : Label) (ht : IsIn t after)
    (hf : IsIn f after) where
  host_ipv4-IsScoped : (ip : ℕ) → IsScoped after (host_ipv4 ip direction t f)
  unfolding host_ipv4
  host_ipv4-IsScoped ip =
      guarded-IsScoped 0x0800 (source_first (match_ipv4 ip) 26 30 direction) t f ht hf
        (source_first-IsBranch _ 26 30 direction (match_ipv4-IsBranch ip))

  host_ipv6-IsScoped : (words : Words) → IsScoped after (host_ipv6 words direction t f)
  unfolding host_ipv6
  host_ipv6-IsScoped words =
      guarded-IsScoped 0x86dd (source_first (match_ipv6 words) 22 38 direction) t f ht hf
        (source_first-IsBranch _ 22 38 direction (match_ipv6-IsBranch words))

  host_mac-IsScoped : (mac : ℕ × ℕ) → IsScoped after (host_mac mac direction t f)
  unfolding host_mac
  host_mac-IsScoped mac =
      (by_direction-IsBranch (match_mac-IsBranch mac 6) (match_mac-IsBranch mac 0)
          (match_mac-IsBranch mac 0) (match_mac-IsBranch mac 6) direction).scoped
        after t f ht hf

  net_ipv4-IsScoped : (net : ℕ × ℕ) → IsScoped after (net_ipv4 net direction t f)
  unfolding net_ipv4
  net_ipv4-IsScoped net =
      guarded-IsScoped 0x0800 (source_first (match_net net) 26 30 direction) t f ht hf
        (source_first-IsBranch _ 26 30 direction (match_net-IsBranch net))

  net_ipv6-IsScoped : (net : Words × Words) → IsScoped after (net_ipv6 net direction t f)
  unfolding net_ipv6
  net_ipv6-IsScoped net =
      guarded-IsScoped 0x86dd (source_first (match_net6 net) 22 38 direction) t f ht hf
        (source_first-IsBranch _ 22 38 direction (match_net6-IsBranch net))

text_of-IsKnown : (v : Value) → IsKnown (text_of v)
unfolding text_of
text_of-IsKnown (str_value s) = tt
text_of-IsKnown (int_value n) = λ d. cc
text_of-IsKnown (range_value lo hi) = λ d. cc
text_of-IsKnown no_value = λ d. cc

module _ (platform : Platform) (free : IsKeyErrorFree platform) (node : KeywordFilter) where
  -- A value's text, parsed.
  parsed-IsKnown :
      {A : Type 0} (parse : String → Result A)
      → ((s : String) → IsKnown (parse s))
      → IsKnown (text_of node.value >>= parse)
  parsed-IsKnown parse h = IsKnown-bind (text_of node.value) parse (text_of-IsKnown node.value) h

  pub compile_host_filter-IsBranch : IsBranch (compile_host_filter platform node)
  unfolding compile_host_filter
  compile_host_filter-IsBranch = record {
    scoped = λ after t f ht hf.
        if-IsScoped (text_eqb node.value_type "ipv4")
          (attempt-IsScoped _ (parsed-IsKnown _ free.inet_aton_known)
            (host_ipv4-IsScoped node.direction t f ht hf))
          (if-IsScoped (text_eqb node.value_type "ipv6")
            (attempt-IsScoped _ (parsed-IsKnown _ free.ipv6_address_known)
              (host_ipv6-IsScoped node.direction t f ht hf))
            (if-IsScoped (text_eqb node.value_type "mac")
              (attempt-IsScoped _ (parsed-IsKnown _ free.mac_address_known)
                (host_mac-IsScoped node.direction t f ht hf))
              (if-IsScoped (text_eqb node.value_type "name")
                (attempt-IsScoped _ (text_of-IsKnown node.value) λ name.
                  option-IsScoped (platform.gethostbyname name) (fail-IsScoped (λ d. cc))
                    λ resolved.
                      attempt-IsScoped _ (free.inet_aton_known resolved)
                        (host_ipv4-IsScoped node.direction t f ht hf))
                (fail-IsScoped (λ d. cc)))));
  }

  pub compile_net_filter-IsBranch : IsBranch (compile_net_filter platform node)
  unfolding compile_net_filter
  compile_net_filter-IsBranch = record {
    scoped = λ after t f ht hf.
        if-IsScoped
          ((text_eqb node.value_type "cidr4" || text_eqb node.value_type "ipv4")
            || has_mask node.mask)
          (attempt-IsScoped _ (parsed-IsKnown _ (λ s. free.ipv4_network_known s node.mask))
            (net_ipv4-IsScoped node.direction t f ht hf))
          (if-IsScoped (text_eqb node.value_type "cidr6")
            (attempt-IsScoped _ (parsed-IsKnown _ free.ipv6_network_known)
              (net_ipv6-IsScoped node.direction t f ht hf))
            (fail-IsScoped (λ d. cc)));
  }

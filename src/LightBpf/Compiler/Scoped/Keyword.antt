-- ===== src/LightBpf/Compiler/Scoped/Keyword.antt =====
-- The code of LightBPF/CompilerSet/Compiler.py for the other keywords keeps to its labels.
use Prim.Native.String.{String}
use light_packet.Base.{ℕ, ◌||◌, Option, none, some, List, [], ◌==◌, refl, inl, inr, Bool-cases}
use light_packet.Base.Text.{text_eqb}
use light_packet.LightBpf.Opcode.{insn_class, insn_op}
use light_packet.LightBpf.Ast.{Value, int_value, str_value, range_value, no_value, KeywordFilter}
use light_packet.LightBpf.Compiler.Code.{Label, Compiler, emit, new_label}
use light_packet.LightBpf.Compiler.Platform.{Platform}
use light_packet.LightBpf.Compiler.Protocol.{is_ip_type}
use light_packet.LightBpf.Compiler.Keyword.{
  int_of, compile_length_filter, compile_broadcast_filter, compile_multicast_filter, shift_vlan,
  shift_mpls, test_vlan_id, compile_vlan_filter, test_mpls_label, compile_mpls_filter, proto_value,
  note_proto, test_proto_at, text_value, is_text, named_ethertype, proto_by_value, compile_proto,
  link_of, compile_proto_filter, compile_keyword,
}
use light_packet.LightBpf.Compiler.Scope.{IsIn, IsConsistent, Asserted-true, IsScoped}
use light_packet.LightBpf.Compiler.Scoped.{
  ▸-IsScoped, emit-IsScoped, reading-IsScoped, update-IsScoped, new_label-IsScoped,
  attempt-IsScoped, fail-IsScoped, if-IsScoped, option-IsScoped, IsKnown, IsKeyErrorFree,
}
use light_packet.LightBpf.Compiler.Scoped.Address.{
  IsBranch, guard_ethertype-IsScoped, compile_host_filter-IsBranch, compile_net_filter-IsBranch,
}
use light_packet.LightBpf.Compiler.Scoped.Transport.{
  compile_port_filter-IsBranch, compile_portrange_filter-IsBranch,
}

note_proto-IsConsistent : (n : ℕ) (c : Compiler) → IsConsistent c → IsConsistent (note_proto n c)
unfolding note_proto
note_proto-IsConsistent n c h = elim (Bool-cases (is_ip_type n)) [
  | inl p ↦ rw p refl
  | inr p ↦ rw p (Asserted-true c.explicit)
]

compile_broadcast_filter-IsBranch : IsBranch compile_broadcast_filter
unfolding compile_broadcast_filter emit new_label insn_class insn_op
compile_broadcast_filter-IsBranch = record {
  scoped = λ after t f ht hf. record { emits = λ c h. search (inl, inr) };
}

compile_multicast_filter-IsBranch : IsBranch compile_multicast_filter
unfolding compile_multicast_filter emit insn_class insn_op
compile_multicast_filter-IsBranch = record {
  scoped = λ after t f ht hf. record { emits = λ c h. search };
}

module _ {after : List Label} (t f : Label) (ht : IsIn t after) (hf : IsIn f after) where
  test_proto_at-IsScoped :
      (p : Option String) (off n : ℕ) → IsScoped after (test_proto_at p off n t f)
  unfolding test_proto_at insn_class insn_op
  test_proto_at-IsScoped none off n = emit-IsScoped [] tt
  test_proto_at-IsScoped (some p) off n = emit-IsScoped _ (search)

  proto_by_value-IsScoped :
      (v : Value) (p : Option String) (n : ℕ) → IsScoped after (proto_by_value v p n t f)
  unfolding proto_by_value
  proto_by_value-IsScoped v p n =
      if-IsScoped (is_text (text_value v) "ip6" || is_text (text_value v) "ipv6")
        (▸-IsScoped (guard_ethertype-IsScoped 0x86dd f hf) (test_proto_at-IsScoped p 20 n))
        (option-IsScoped (named_ethertype (text_value v))
          (▸-IsScoped (guard_ethertype-IsScoped 0x0800 f hf) (test_proto_at-IsScoped p 23 n))
          (λ e. guard_ethertype-IsScoped e f hf))

  compile_proto-IsScoped :
      (v : Value) (p link : Option String) (n : ℕ) → IsScoped after (compile_proto v p link n t f)
  unfolding compile_proto insn_class insn_op
  compile_proto-IsScoped v p link n = reading-IsScoped _ λ c.
      if-IsScoped (is_text link "ether" || is_text link "link") (emit-IsScoped _ (search)) (
        if-IsScoped (is_text link "ip6" || is_text link "ipv6")
          (▸-IsScoped (guard_ethertype-IsScoped 0x86dd f hf) (test_proto_at-IsScoped p 20 n))
          (proto_by_value-IsScoped v p n))

module _ (platform : Platform) (free : IsKeyErrorFree platform) where
  int_of-IsKnown : (v : Value) → IsKnown (int_of platform v)
  unfolding int_of
  int_of-IsKnown (int_value n) = tt
  int_of-IsKnown (str_value s) = free.int_of_text_known s
  int_of-IsKnown (range_value lo hi) = λ d. cc
  int_of-IsKnown no_value = λ d. cc

  compile_length_filter-IsBranch :
      (node : KeywordFilter) → IsBranch (compile_length_filter platform node)
  unfolding compile_length_filter insn_class insn_op
  compile_length_filter-IsBranch node = record {
    scoped = λ after t f ht hf. attempt-IsScoped _ (int_of-IsKnown node.value) λ val.
        if-IsScoped (text_eqb node.keyword "less") (emit-IsScoped _ (search))
          (emit-IsScoped _ (search));
  }

  -- The test of a field, when the filter has a value for it.
  test_vlan_id-IsBranch : (v : Value) (off : ℕ) → IsBranch (test_vlan_id platform v off)
  unfolding test_vlan_id insn_class insn_op
  test_vlan_id-IsBranch no_value off = record {
    scoped = λ after t f ht hf. emit-IsScoped _ (search);
  }
  test_vlan_id-IsBranch (int_value n) off = record {
    scoped = λ after t f ht hf.
        attempt-IsScoped _ (int_of-IsKnown (int_value n)) λ vid. emit-IsScoped _ (search);
  }
  test_vlan_id-IsBranch (str_value s) off = record {
    scoped = λ after t f ht hf.
        attempt-IsScoped _ (int_of-IsKnown (str_value s)) λ vid. emit-IsScoped _ (search);
  }
  test_vlan_id-IsBranch (range_value lo hi) off = record {
    scoped = λ after t f ht hf.
        attempt-IsScoped _ (int_of-IsKnown (range_value lo hi)) λ vid. emit-IsScoped _ (search);
  }

  test_mpls_label-IsBranch : (v : Value) → IsBranch (test_mpls_label platform v)
  unfolding test_mpls_label insn_class insn_op
  test_mpls_label-IsBranch no_value = record {
    scoped = λ after t f ht hf. emit-IsScoped _ (search);
  }
  test_mpls_label-IsBranch (int_value n) = record {
    scoped = λ after t f ht hf.
        attempt-IsScoped _ (int_of-IsKnown (int_value n)) λ l. emit-IsScoped _ (search);
  }
  test_mpls_label-IsBranch (str_value s) = record {
    scoped = λ after t f ht hf.
        attempt-IsScoped _ (int_of-IsKnown (str_value s)) λ l. emit-IsScoped _ (search);
  }
  test_mpls_label-IsBranch (range_value lo hi) = record {
    scoped = λ after t f ht hf.
        attempt-IsScoped _ (int_of-IsKnown (range_value lo hi)) λ l. emit-IsScoped _ (search);
  }

  compile_vlan_filter-IsBranch :
      (node : KeywordFilter) → IsBranch (compile_vlan_filter platform node)
  unfolding compile_vlan_filter shift_vlan insn_class insn_op
  compile_vlan_filter-IsBranch node = record {
    scoped = λ after t f ht hf. new_label-IsScoped λ here. reading-IsScoped _ λ c.
        ▸-IsScoped (emit-IsScoped _ (search)) (
          ▸-IsScoped (update-IsScoped _ (λ c' h. h)) (
            ▸-IsScoped (emit-IsScoped _ (search (inl, inr))) (
              ▸-IsScoped ((test_vlan_id-IsBranch node.value c.vlan_id_off).scoped after t f ht hf)
                (update-IsScoped _ (λ c' h. h)))));
  }

  compile_mpls_filter-IsBranch :
      (node : KeywordFilter) → IsBranch (compile_mpls_filter platform node)
  unfolding compile_mpls_filter shift_mpls insn_class insn_op
  compile_mpls_filter-IsBranch node = record {
    scoped = λ after t f ht hf. new_label-IsScoped λ here. reading-IsScoped _ λ c.
        ▸-IsScoped (emit-IsScoped _ (search)) (
          ▸-IsScoped (update-IsScoped _ (λ c' h. h)) (
            ▸-IsScoped (emit-IsScoped _ (search (inl, inr)))
              ((test_mpls_label-IsBranch node.value).scoped after t f ht hf)));
  }

  compile_proto_filter-IsBranch :
      (node : KeywordFilter) → IsBranch (compile_proto_filter platform node)
  unfolding compile_proto_filter
  compile_proto_filter-IsBranch node = record {
    scoped = λ after t f ht hf. reading-IsScoped _ λ c.
        if-IsScoped (c.linktype == 1)
          (option-IsScoped (proto_value platform node.value) (fail-IsScoped (λ d. cc)) λ n.
            ▸-IsScoped (update-IsScoped _ (note_proto-IsConsistent n)) (
              compile_proto-IsScoped t f ht hf node.value node.protocol
                (link_of platform node.protocol) n))
          (fail-IsScoped (λ d. cc));
  }

  pub compile_keyword-IsBranch : (node : KeywordFilter) → IsBranch (compile_keyword platform node)
  unfolding compile_keyword
  compile_keyword-IsBranch node = record {
    scoped = λ after t f ht hf.
        if-IsScoped (text_eqb node.keyword "host")
          ((compile_host_filter-IsBranch platform free node).scoped after t f ht hf)
          (if-IsScoped (text_eqb node.keyword "net")
            ((compile_net_filter-IsBranch platform free node).scoped after t f ht hf)
            (if-IsScoped (text_eqb node.keyword "port")
              ((compile_port_filter-IsBranch platform node).scoped after t f ht hf)
              (if-IsScoped (text_eqb node.keyword "portrange")
                ((compile_portrange_filter-IsBranch platform node).scoped after t f ht hf)
                (if-IsScoped (text_eqb node.keyword "less" || text_eqb node.keyword "greater")
                  ((compile_length_filter-IsBranch node).scoped after t f ht hf)
                  (if-IsScoped (text_eqb node.keyword "broadcast")
                    (compile_broadcast_filter-IsBranch.scoped after t f ht hf)
                    (if-IsScoped (text_eqb node.keyword "multicast")
                      (compile_multicast_filter-IsBranch.scoped after t f ht hf)
                      (if-IsScoped
                        (text_eqb node.keyword "proto" || text_eqb node.keyword "protochain")
                        ((compile_proto_filter-IsBranch node).scoped after t f ht hf)
                        (if-IsScoped (text_eqb node.keyword "vlan")
                          ((compile_vlan_filter-IsBranch node).scoped after t f ht hf)
                          (if-IsScoped (text_eqb node.keyword "mpls")
                            ((compile_mpls_filter-IsBranch node).scoped after t f ht hf)
                            (fail-IsScoped (λ d. cc)))))))))));
  }

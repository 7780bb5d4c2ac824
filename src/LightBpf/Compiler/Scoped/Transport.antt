-- ===== src/LightBpf/Compiler/Scoped/Transport.antt =====
-- The code of LightBPF/CompilerSet/Compiler.py for the transport's guard and for port filters keeps
-- to its labels.
use Prim.Native.String.{String}
use light_packet.Base.{
  ℕ, Bool, true, false, ◌&&◌, Option, none, some, List, [], ◌≡◌, refl, inl, inr,
}
use light_packet.LightBpf.Opcode.{insn_class, insn_op}
use light_packet.LightBpf.Ast.{Value, int_value, str_value, range_value, no_value, KeywordFilter}
use light_packet.LightBpf.Compiler.Code.{Label, emit, ◌▸◌, reading, update, new_label}
use light_packet.LightBpf.Compiler.Platform.{Platform}
use light_packet.LightBpf.Compiler.Tables.{lookup, common_services}
use light_packet.LightBpf.Compiler.Transport.{
  setup_ipv6_only, setup_ipv4_only, test_protocol, setup_ipv4, setup_ipv6, may_be, setup_branches,
  setup_dual, proto_num, is_proto, setup_transport_layer, resolve_port, match_port,
  compile_port_filter, match_range, range_of, compile_portrange_filter,
}
use light_packet.LightBpf.Compiler.Scope.{IsIn, Asserted, IsScoped}
use light_packet.LightBpf.Compiler.Scoped.{
  ▸-IsScoped, emit-IsScoped, reading-IsScoped, attempt-IsScoped, if-IsScoped, IsKnown,
  option-IsKnown,
}
use light_packet.LightBpf.Compiler.Scoped.Address.{IsBranch, source_first-IsBranch}

both_branches :
    (e : Option ℕ) (parsed : Bool)
    → Asserted e parsed
    → parsed ≡ false
    → may_be e 0x0800 && may_be e 0x86dd ≡ true
both_branches none parsed h p = refl
both_branches (some e) parsed h p = cc

module _ {after : List Label} (f : Label) (hf : IsIn f after) where
  setup_ipv6_only-IsScoped : (num : ℕ) → IsScoped after (setup_ipv6_only num f)
  unfolding setup_ipv6_only emit reading new_label insn_class insn_op
  setup_ipv6_only-IsScoped num = record { emits = λ c h. search (inl, inr) }

  setup_ipv4_only-IsScoped : (num : ℕ) → IsScoped after (setup_ipv4_only num f)
  unfolding setup_ipv4_only emit reading new_label insn_class insn_op
  setup_ipv4_only-IsScoped num = record { emits = λ c h. search (inl, inr) }

  -- A branch is left out only where the Ethernet type has been tested before.
  setup_branches-IsScoped :
      (v4 v6 parsed : Bool) (num : Option ℕ)
      → (parsed ≡ false → v4 && v6 ≡ true)
      → IsScoped after (setup_branches v4 v6 parsed num f)
  unfolding setup_branches setup_ipv4 setup_ipv6 test_protocol emit ◌▸◌ update reading new_label
      insn_class insn_op
  setup_branches-IsScoped true true true none p = record {
    emits = λ c h. search (inl, inr) depth 10;
  }
  setup_branches-IsScoped true true false none p = record {
    emits = λ c h. search (inl, inr) depth 10;
  }
  setup_branches-IsScoped true true true (some n) p = record {
    emits = λ c h. search (inl, inr) depth 10;
  }
  setup_branches-IsScoped true true false (some n) p = record {
    emits = λ c h. search (inl, inr) depth 10;
  }
  setup_branches-IsScoped true false true none p = record {
    emits = λ c h. search (inl, inr) depth 10;
  }
  setup_branches-IsScoped true false true (some n) p = record {
    emits = λ c h. search (inl, inr) depth 10;
  }
  setup_branches-IsScoped false true true none p = record { emits = λ c h. search depth 10 }
  setup_branches-IsScoped false true true (some n) p = record {
    emits = λ c h. search (inl, inr) depth 10;
  }
  setup_branches-IsScoped false false true none p = record { emits = λ c h. search depth 10 }
  setup_branches-IsScoped false false true (some n) p = record { emits = λ c h. search depth 10 }
  setup_branches-IsScoped true false false num p = let e : false ≡ true = p refl in cc
  setup_branches-IsScoped false true false num p = let e : false ≡ true = p refl in cc
  setup_branches-IsScoped false false false num p = let e : false ≡ true = p refl in cc

  setup_dual-IsScoped : (num : Option ℕ) → IsScoped after (setup_dual num f)
  unfolding setup_dual reading
  setup_dual-IsScoped num = record {
    emits = λ c h.
        (setup_branches-IsScoped (may_be c.explicit 0x0800) (may_be c.explicit 0x86dd)
            c.parsed_upper num (both_branches c.explicit c.parsed_upper h)).emits
          c h;
  }

  pub setup_transport_layer-IsScoped :
      (proto : Option String) → IsScoped after (setup_transport_layer proto f)
  unfolding setup_transport_layer
  setup_transport_layer-IsScoped proto =
      if-IsScoped (is_proto proto "icmp6") (setup_ipv6_only-IsScoped 58) (
        if-IsScoped (is_proto proto "icmp") (setup_ipv4_only-IsScoped 1) (
          if-IsScoped (is_proto proto "igmp") (setup_ipv4_only-IsScoped 2)
            (setup_dual-IsScoped (proto_num proto))))

resolve_port-IsKnown : (platform : Platform) (v : Value) → IsKnown (resolve_port platform v)
unfolding resolve_port
resolve_port-IsKnown platform (int_value n) = tt
resolve_port-IsKnown platform (str_value s) =
    option-IsKnown (platform.decimal (platform.lower s)) _ _
      (option-IsKnown (lookup (platform.lower s) common_services) _ _
        (option-IsKnown (platform.getservbyname (platform.lower s)) _ _ (λ d. cc) (λ n. tt))
        (λ n. tt))
      (λ n. tt)
resolve_port-IsKnown platform (range_value lo hi) = λ d. cc
resolve_port-IsKnown platform no_value = λ d. cc

match_port-IsBranch : (port off : ℕ) → IsBranch (match_port port off)
unfolding match_port emit insn_class insn_op
match_port-IsBranch port off = record {
  scoped = λ after t f ht hf. record { emits = λ c h. search };
}

match_range-IsBranch : (lo hi off : ℕ) → IsBranch (match_range lo hi off)
unfolding match_range emit new_label insn_class insn_op
match_range-IsBranch lo hi off = record {
  scoped = λ after t f ht hf. record { emits = λ c h. search (inl, inr) };
}

range_of-IsKnown : (v : Value) → IsKnown (range_of v)
unfolding range_of
range_of-IsKnown (int_value n) = λ d. cc
range_of-IsKnown (str_value s) = λ d. cc
range_of-IsKnown (range_value lo hi) = tt
range_of-IsKnown no_value = λ d. cc

pub compile_port_filter-IsBranch :
    (platform : Platform) (node : KeywordFilter) → IsBranch (compile_port_filter platform node)
unfolding compile_port_filter
compile_port_filter-IsBranch platform node = record {
  scoped = λ after t f ht hf. attempt-IsScoped _ (resolve_port-IsKnown platform node.value) λ port.
      reading-IsScoped _ λ c.
        ▸-IsScoped
          (if-IsScoped c.sip (emit-IsScoped [] tt)
            (setup_transport_layer-IsScoped f hf node.protocol))
          ((source_first-IsBranch _ c.port_field_src c.port_field_dst node.direction
              (match_port-IsBranch port)).scoped
            after t f ht hf);
}

pub compile_portrange_filter-IsBranch :
    (platform : Platform) (node : KeywordFilter) → IsBranch (compile_portrange_filter platform node)
unfolding compile_portrange_filter
compile_portrange_filter-IsBranch platform node = record {
  scoped = λ after t f ht hf. attempt-IsScoped _ (range_of-IsKnown node.value) λ range.
      reading-IsScoped _ λ c. ▸-IsScoped (setup_transport_layer-IsScoped f hf node.protocol) (
        (source_first-IsBranch _ c.port_field_src c.port_field_dst node.direction
            (match_range-IsBranch range.0 range.1)).scoped
          after t f ht hf);
}

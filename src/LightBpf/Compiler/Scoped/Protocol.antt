-- ===== src/LightBpf/Compiler/Scoped/Protocol.antt =====
-- The code of LightBPF/CompilerSet/Compiler.py for a protocol name keeps to its labels.
use Prim.Native.String.{String}
use light_packet.Base.{ℕ, Bool, true, false, ◌||◌, Option, List, ◌==◌, refl, inl, inr, Bool-cases}
use light_packet.Base.Text.{text_eqb}
use light_packet.LightBpf.Opcode.{insn_class, insn_op}
use light_packet.LightBpf.Ethertype.{ethertype_keywords}
use light_packet.LightBpf.Compiler.Code.{Label, Compiler, emit, ◌▸◌, update, reading, new_label}
use light_packet.LightBpf.Compiler.Tables.{lookup}
use light_packet.LightBpf.Compiler.Protocol.{
  note_ethertype, compile_ethertype, compile_vlan_name, compile_mpls_name, unless_sip, compile_icmp,
  compile_icmp6, is_ip_type, compile_transport_ipv4, compile_transport_ipv6,
  compile_dual_stack_transport, compile_transport, compile_ip_protocol, protocol_number,
  compile_protocol,
}
use light_packet.LightBpf.Compiler.Scope.{IsIn, Asserted-true, IsConsistent, IsScoped}
use light_packet.LightBpf.Compiler.Scoped.{
  ▸-IsScoped, reading-IsScoped, update-IsScoped, fail-IsScoped, if-IsScoped, option-IsScoped,
}

note_ethertype-IsConsistent :
    (e : ℕ) (c : Compiler) → IsConsistent c → IsConsistent (note_ethertype e c)
unfolding note_ethertype
note_ethertype-IsConsistent e c h = elim (Bool-cases (is_ip_type e)) [
  | inl p ↦ rw p refl
  | inr p ↦ rw p (Asserted-true c.explicit)
]

module _ {after : List Label} (t f : Label) (ht : IsIn t after) (hf : IsIn f after) where
  compile_ethertype-IsScoped : (e : ℕ) → IsScoped after (compile_ethertype e t f)
  unfolding compile_ethertype emit insn_class insn_op
  compile_ethertype-IsScoped e = reading-IsScoped _ λ c.
      ▸-IsScoped (record { emits = λ c' h. search })
        (update-IsScoped _ (note_ethertype-IsConsistent e))

  compile_vlan_name-IsScoped : IsScoped after (compile_vlan_name t f)
  unfolding compile_vlan_name emit reading new_label insn_class insn_op
  compile_vlan_name-IsScoped = record { emits = λ c h. search (inl, inr) }

  compile_mpls_name-IsScoped : IsScoped after (compile_mpls_name t f)
  unfolding compile_mpls_name emit reading new_label insn_class insn_op
  compile_mpls_name-IsScoped = record { emits = λ c h. search (inl, inr) }

  unless_sip-IsScoped : (b : Bool) (e : ℕ) → IsScoped after (unless_sip b e f)
  unfolding unless_sip emit reading new_label insn_class insn_op
  unless_sip-IsScoped true e = record { emits = λ c h. search }
  unless_sip-IsScoped false e = record { emits = λ c h. search (inl, inr) }

  compile_icmp-IsScoped : IsScoped after (compile_icmp t f)
  unfolding compile_icmp emit insn_class insn_op
  compile_icmp-IsScoped =
      reading-IsScoped _
        λ c. ▸-IsScoped (unless_sip-IsScoped c.sip 0x0800) (record { emits = λ c' h. search })

  compile_icmp6-IsScoped : IsScoped after (compile_icmp6 t f)
  unfolding compile_icmp6 emit insn_class insn_op
  compile_icmp6-IsScoped =
      reading-IsScoped _
        λ c. ▸-IsScoped (unless_sip-IsScoped c.sip 0x86dd) (record { emits = λ c' h. search })

  compile_transport_ipv4-IsScoped : (n : ℕ) → IsScoped after (compile_transport_ipv4 n t f)
  unfolding compile_transport_ipv4 emit reading new_label insn_class insn_op
  compile_transport_ipv4-IsScoped n = record { emits = λ c h. search }

  compile_transport_ipv6-IsScoped : (n : ℕ) → IsScoped after (compile_transport_ipv6 n t f)
  unfolding compile_transport_ipv6 emit reading new_label insn_class insn_op
  compile_transport_ipv6-IsScoped n = record { emits = λ c h. search (inl, inr) }

  compile_dual_stack_transport-IsScoped :
      (n : ℕ) → IsScoped after (compile_dual_stack_transport n t f)
  unfolding compile_dual_stack_transport emit update ◌▸◌ reading new_label insn_class insn_op
  compile_dual_stack_transport-IsScoped n = record { emits = λ c h. search (inl, inr) }

  compile_transport-IsScoped : (n : ℕ) → IsScoped after (compile_transport n t f)
  unfolding compile_transport
  compile_transport-IsScoped n = reading-IsScoped _ λ c.
      option-IsScoped c.explicit (compile_dual_stack_transport-IsScoped n) λ e.
        if-IsScoped (e == 0x0800) (compile_transport_ipv4-IsScoped n) (
          if-IsScoped (e == 0x86dd) (compile_transport_ipv6-IsScoped n)
            (compile_dual_stack_transport-IsScoped n))

  compile_ip_protocol-IsScoped :
      (name : String) (n : ℕ) → IsScoped after (compile_ip_protocol name n t f)
  unfolding compile_ip_protocol
  compile_ip_protocol-IsScoped name n =
      if-IsScoped (text_eqb name "icmp") compile_icmp-IsScoped
        (if-IsScoped (text_eqb name "icmp6") compile_icmp6-IsScoped (compile_transport-IsScoped n))

  -- Code that is only for Ethernet links, and is not implemented for others.
  pub compile_protocol-IsScoped :
      (name : String) (n : Option ℕ) → IsScoped after (compile_protocol name n t f)
  unfolding compile_protocol emit insn_class insn_op
  compile_protocol-IsScoped name n = reading-IsScoped _ λ c.
      if-IsScoped (c.linktype == 1)
        (if-IsScoped (text_eqb name "ether" || text_eqb name "link")
          (record { emits = λ c' h. search })
          (option-IsScoped (lookup name ethertype_keywords)
            (if-IsScoped (text_eqb name "vlan") compile_vlan_name-IsScoped (
              if-IsScoped (text_eqb name "mpls") compile_mpls_name-IsScoped (
                option-IsScoped (protocol_number name n) (fail-IsScoped (λ d. cc))
                  (compile_ip_protocol-IsScoped name))))
            compile_ethertype-IsScoped))
        (fail-IsScoped (λ d. cc))

-- ===== src/LightBpf/Compiler/Sound/Keywords.antt =====
-- LightBPF/CompilerSet/Compiler.py: `_compile_keyword`, and the protocols that are Ethernet types.
use Prim.Native.String.{String}
use light_packet.Base.{
  ℕ, Bool, true, false, ◌||◌, Option, none, some, List, [], ◌∷◌, ◌==◌, if◌then◌else◌, ◌≡◌, refl, ap,
  arith,
}
use light_packet.Base.Text.{text_eqb}
use light_packet.Base.Exceptions.{◌>>=◌}
use light_packet.LightBpf.Ast.{KeywordFilter}
use light_packet.LightBpf.Ethertype.{ethertype_keywords}
use light_packet.LightBpf.Compiler.Code.{
  Label, plain, cond, Compiler, emit, ◌▸◌, reading, update, ldh_abs, jeq_k,
}
use light_packet.LightBpf.Compiler.Platform.{Platform}
use light_packet.LightBpf.Compiler.Tables.{lookup}
use light_packet.LightBpf.Compiler.Address.{Branch, text_of, compile_net_filter}
use light_packet.LightBpf.Compiler.Protocol.{
  compile_protocol, compile_ethertype, note_ethertype, is_ip_type,
}
use light_packet.LightBpf.Compiler.Keyword.{int_of, compile_length_filter, compile_keyword}
use light_packet.LightBpf.Compiler.Symbolic.{falls, jumps, ends}
use light_packet.LightBpf.Compiler.Answers.{field_reading, test_field}
use light_packet.LightBpf.Compiler.Meaning.{
  Meaning, net_meaning, length_meaning, keyword_meaning, protocol_meaning, has_text,
}
use light_packet.LightBpf.Compiler.Sound.{IsOld, IsEthernet, Sound, Meets, Glues, ▸-Meets}
use light_packet.LightBpf.Compiler.Sound.Connectives.{goal, At, Decides}
use light_packet.LightBpf.Compiler.Sound.Jumps.{jeq-IsTest, test-Decides, goto-Decides, ldh-Yields}
use light_packet.LightBpf.Compiler.Sound.Addresses.{broadcast-Decides}
use light_packet.LightBpf.Compiler.Sound.Expressions.{on_link}
use light_packet.LightBpf.Compiler.Sound.Filters.{
  Means, Means-if, attempt-Means, host-Means, net_ipv4-Decides, length-Decides, multicast-Decides,
}

net-Means :
    (platform : Platform) (node : KeywordFilter)
    → Means (net_meaning platform node) (compile_net_filter platform node)
unfolding net_meaning compile_net_filter
net-Means platform node =
    Means-if
      ((text_eqb node.value_type "cidr4" || text_eqb node.value_type "ipv4") || has_text node.mask)
      _ none _ _
      (attempt-Means (text_of node.value >>= λ address. platform.ipv4_network address node.mask) _ _
        (λ net packet. net_ipv4-Decides packet net node.direction))
      tt

length-Means :
    (platform : Platform) (node : KeywordFilter)
    → Means (length_meaning platform node) (compile_length_filter platform node)
unfolding length_meaning compile_length_filter
length-Means platform node =
    attempt-Means (int_of platform node.value) _ _
      (λ n packet. length-Decides packet (text_eqb node.keyword "less") n)

pub keyword-Means :
    (platform : Platform) (node : KeywordFilter)
    → Means (keyword_meaning platform node) (compile_keyword platform node)
unfolding keyword_meaning compile_keyword
keyword-Means platform node =
    Means-if (text_eqb node.keyword "host") _ _ _ _ (host-Means platform node) (
      Means-if (text_eqb node.keyword "net") _ _ _ _ (net-Means platform node) (
        Means-if (text_eqb node.keyword "port") none _ _ _ tt (
          Means-if (text_eqb node.keyword "portrange") none _ _ _ tt (
            Means-if (text_eqb node.keyword "less" || text_eqb node.keyword "greater") _ _ _ _
              (length-Means platform node)
              (Means-if (text_eqb node.keyword "broadcast") _ _ _ _ broadcast-Decides
                (Means-if (text_eqb node.keyword "multicast") _ none _ _ multicast-Decides tt))))))

module _ (packet : List ℕ) where
  -- What only changes the state, behind code that is done.
  done-At :
      (k : ℕ) (d : Option Bool) (t f : Label)
      → IsOld k t
      → IsOld k f
      → Glues packet k (At (goal d t f)) (λ s x. Unit) (At (goal d t f))
  done-At k none t f ot of ys passes h s (ends o) l = l
  done-At k none t f ot of ys passes h s (falls s') l = elim l [ ]
  done-At k none t f ot of ys passes h s (jumps m s') l = elim l [ ]
  done-At k (some true) t f ot of ys passes h s (jumps m s') l = rw l (rw (passes t s' ot) refl)
  done-At k (some true) t f ot of ys passes h s (falls s') l = elim l [ ]
  done-At k (some true) t f ot of ys passes h s (ends o) l = elim l [ ]
  done-At k (some false) t f ot of ys passes h s (jumps m s') l = rw l (rw (passes f s' of) refl)
  done-At k (some false) t f ot of ys passes h s (falls s') l = elim l [ ]
  done-At k (some false) t f ot of ys passes h s (ends o) l = elim l [ ]

  -- What an Ethernet type leaves in the state keeps the offsets.
  note-Sound :
      (ip : Bool) (e : ℕ) (c : Compiler)
      → IsEthernet c
      → Sound packet
          (λ s x. Unit)
          c
          []
          (if ip
            then record c { explicit = some e; sip = true; parsed_upper = true }
            else record c { parsed_upper = true })
  note-Sound true e c eth = record {
    grows = omega arith;
    ethernet = record { linktype = eth.linktype; ethertype = eth.ethertype; ipv4 = eth.ipv4 };
    new = λ l inside. elim inside [ ];
    distinct = tt;
    leaves = λ s. tt;
  }
  note-Sound false e c eth = record {
    grows = omega arith;
    ethernet = record { linktype = eth.linktype; ethertype = eth.ethertype; ipv4 = eth.ipv4 };
    new = λ l inside. elim inside [ ];
    distinct = tt;
    leaves = λ s. tt;
  }

  noted-Decides :
      (d : Option Bool) (p : Branch) (e : ℕ)
      → Decides packet d p
      → Decides packet d (λ t f. p t f ▸ update (note_ethertype e))
  unfolding update note_ethertype
  noted-Decides d p e h = record {
    decides = λ c t f eth ot of.
        ▸-Meets packet (At (goal d t f)) (λ s x. Unit) (At (goal d t f)) c (p t f)
          (update (note_ethertype e)) (done-At c.label_counter d t f ot of)
          (h.decides c t f eth ot of) (λ c1 le eth1. note-Sound (is_ip_type e) e c1 eth1);
  }

  -- The test of the Ethernet type, wherever the state says that it stands.
  ethertype-Meets :
      (e off : ℕ) (c : Compiler) (t f : Label)
      → off ≡ 12
      → IsEthernet c
      → IsOld c.label_counter t
      → IsOld c.label_counter f
      → Meets packet
          (At (goal (test_field 12 2 e packet) t f))
          c
          (emit (plain ldh_abs off ∷ cond jeq_k t f e ∷ []) c)
  unfolding test_field emit ◌▸◌
  ethertype-Meets e off c t f here eth ot of = rw here (
      (test-Decides packet jeq_k e (λ w. w == e) (field_reading packet 12 2)
          (λ g. emit (plain ldh_abs 12 ∷ [])) (jeq-IsTest e) (ldh-Yields packet 12)).decides
        c t f eth ot of)

  ethertype-Decides : (e : ℕ) → Decides packet (test_field 12 2 e packet) (compile_ethertype e)
  unfolding compile_ethertype reading ◌▸◌
  ethertype-Decides e =
      let test : Branch =
        λ t f. reading λ c. emit (plain ldh_abs c.e_p_offset ∷ cond jeq_k t f e ∷ []) in
      noted-Decides (test_field 12 2 e packet) test e (record {
        decides = λ c t f eth ot of. ethertype-Meets e c.e_p_offset c t f eth.ethertype eth ot of;
      })

  on_link-Decides :
      (d : Option Bool) (p : Branch) (q : Branch)
      → Decides packet d p
      → Decides packet d (λ t f. reading λ c. if c.linktype == 1 then p t f else q t f)
  unfolding reading
  on_link-Decides d p q h = record {
    decides = λ c t f eth ot of.
        on_link (c.linktype == 1) (At (goal d t f)) packet c (p t f) (q t f)
          (ap (λ n. n == 1) eth.linktype) (h.decides c t f eth ot of);
  }

on_link-Means :
    (m : Meaning) (p q : Branch)
    → Means m p
    → Means m (λ t f. reading λ c. if c.linktype == 1 then p t f else q t f)
on_link-Means none p q h = tt
on_link-Means (some m) p q h = λ packet. on_link-Decides packet (m packet) p q (h packet)

named-Means :
    (found : Option ℕ) (q : Branch)
    → Means
        (elim found [ none ↦ none | some e ↦ some (test_field 12 2 e) ])
        (λ t f. elim found [ some e ↦ compile_ethertype e t f | none ↦ q t f ])
named-Means none q = tt
named-Means (some e) q = λ packet. ethertype-Decides packet e

pub protocol-Means :
    (name : String) (num : Option ℕ) → Means (protocol_meaning name) (compile_protocol name num)
unfolding protocol_meaning compile_protocol
protocol-Means name num = on_link-Means _ _ _ (
    Means-if (text_eqb name "ether" || text_eqb name "link") _ _ _ _ goto-Decides
      (named-Means (lookup name ethertype_keywords) _))

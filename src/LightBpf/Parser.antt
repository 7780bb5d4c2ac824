-- ===== src/LightBpf/Parser.antt =====
-- LightBPF/Parser.py: the tokens, and the methods that read a few of them. A parser is a function from
-- the tokens that are left to what it returns and the tokens left then; `none` is that the fuel of a
-- recursion or a loop ran out.
use Prim.Native.String.{String}
use light_packet.Base.{
  ℕ, Bool, true, false, ◌&&◌, ◌||◌, Option, none, some, List, [], ◌∷◌, if◌then◌else◌,
}
use light_packet.Base.Text.{text_eqb}
use light_packet.Base.Exceptions.{Exception, Result, ok, raise, syntax_error}
pub mod Arithmetic
pub mod Qualifiers
pub mod Logical
pub mod Ends
pub mod Total
pub mod Written
pub mod RoundTrip
pub mod Tests

-- `Token`; the kind is its `type`.
pub record Token : Type 0 where
  pub kind : String
  pub value : String

-- What the parser asks of Python: `int(text)`, and the two ends of `text.split('-')` as ints.
pub record Texts : Type 0 where
  pub int_of_text : String → Result ℕ
  pub range_of_text : String → Result (ℕ × ℕ)

abbrev pub Parsed : Type 0 → Type 0
Parsed A = Option (Result (A × List Token))

abbrev pub Parser : Type 0 → Type 0
Parser A = List Token → Parsed A

abbrev pub done : {A : Type 0} → A → Parser A
done a ts = some (ok (a, ts))

abbrev pub fails : {A : Type 0} → Parser A
fails ts = some (raise syntax_error)

abbrev pub after : {A B : Type 0} → Parsed A → (A → Parser B) → Parsed B
after none k = none
after (some (raise e)) k = some (raise e)
after (some (ok (a, ts))) k = k a ts

-- One parser after another; an exception, and the end of the fuel, end both.
infixr 20 ◌▹◌
unfoldable pub ◌▹◌ : {A B : Type 0} → Parser A → (A → Parser B) → Parser B
(p ▹ k) ts = after (p ts) k

-- A call that may raise.
unfoldable pub lift : {A : Type 0} → Result A → Parser A
lift (ok a) ts = some (ok (a, ts))
lift (raise e) ts = some (raise e)

-- `value in (...)`.
unfoldable pub is_one_of : String → List String → Bool
is_one_of s [] = false
is_one_of s (t ∷ ts) = text_eqb s t || is_one_of s ts

abbrev pub has : Token → String → String → Bool
has t kind v = text_eqb t.kind kind && text_eqb t.value v

-- `_is(ttype)` and `_is(ttype, value)` at the current token.
unfoldable pub at_kind : String → List Token → Bool
at_kind kind [] = false
at_kind kind (t ∷ ts) = text_eqb t.kind kind

unfoldable pub at_token : String → String → List Token → Bool
at_token kind v [] = false
at_token kind v (t ∷ ts) = has t kind v

-- `consume(ttype)` and `consume(ttype, value)`.
unfoldable pub consume_kind : String → Parser Token
consume_kind kind [] = some (raise syntax_error)
consume_kind kind (t ∷ ts) =
    if text_eqb t.kind kind then some (ok (t, ts)) else some (raise syntax_error)

unfoldable pub consume : String → String → Parser Token
consume kind v [] = some (raise syntax_error)
consume kind v (t ∷ ts) = if has t kind v then some (ok (t, ts)) else some (raise syntax_error)

-- `tok.type in ('IP-PROTOCOL', 'DLT', 'ETHERTYPE')`.
abbrev pub is_protocol_kind : String → Bool
is_protocol_kind kind =
    text_eqb kind "IP-PROTOCOL" || (text_eqb kind "DLT" || text_eqb kind "ETHERTYPE")

-- `_ADDR_TYPES`.
unfoldable pub addr_type : String → Option String
addr_type kind =
    if text_eqb kind "IPV4"
    then some "ipv4"
    else if text_eqb kind "IPV6"
    then some "ipv6"
    else if text_eqb kind "MAC"
    then some "mac"
    else if text_eqb kind "IPV4_CIDR"
    then some "cidr4"
    else if text_eqb kind "IPV6_CIDR"
    then some "cidr6"
    else none

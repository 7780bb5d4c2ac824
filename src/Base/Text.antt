-- ===== src/Base/Text.antt =====
-- Texts are native strings; the test for equality has a name of its own.
use Prim.Native.String.{String}
use text.Mathlib.Text.{◌==◌}
use light_packet.Base.{Bool}

abbrev pub text_eqb : String → String → Bool
text_eqb a b = a == b

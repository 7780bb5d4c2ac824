-- ===== src/Layers/Udp.antt =====
-- udp.py: the UDP layer over a payload that is already bytes.
pub mod Datagram
use light_packet.Base.{
  ℕ, zero, suc, ◌+◌, ◌-◌, ◌*◌, ◌/◌, ◌%◌, ◌^◌, Bool, true, false, Option, none, some, List, [], ◌∷◌,
  ◌++◌, length, take, drop, ltb, if◌then◌else◌,
}
use light_packet.Base.Exceptions.{Result, ok, raise, ◌>>=◌, invalid_data_length_error, struct_error}
use light_packet.Base.Bytes.{unpack_be, pack_h}
use light_packet.Utils.Checksum.{transport_checksum}

abbrev pub udp_header_len : ℕ
udp_header_len = 8

-- `UDP`: `payload` is what `get_payload_bytes` returns.
pub record Udp : Type 0 where
  pub sport : ℕ
  pub dport : ℕ
  pub len : Option ℕ
  pub checksum : Option ℕ
  pub payload : List ℕ

-- `UDP(sport, dport, length, checksum)`.
unfoldable pub udp : ℕ → ℕ → Option ℕ → Option ℕ → Udp
udp sport dport len checksum = record {
  sport = sport % 2 ^ 16;
  dport = dport % 2 ^ 16;
  len = len;
  checksum = checksum;
  payload = [];
}

-- `struct.pack('>HHHH', a, b, c, d)`.
unfoldable pub pack_hhhh : ℕ → ℕ → ℕ → ℕ → Result (List ℕ)
unfolding pack_h
pack_hhhh a b c d = do
  pa ← pack_h a
  pb ← pack_h b
  pc ← pack_h c
  pd ← pack_h d
  ok (pa ++ (pb ++ (pc ++ pd)))

-- `x if x is not None else d`.
abbrev pub or_else : Option ℕ → ℕ → ℕ
or_else none d = d
or_else (some v) d = v

-- The length field: the one given, or the header's and the payload's.
unfoldable pub length_field : Udp → ℕ
length_field u = or_else u.len (udp_header_len + length u.payload)

-- `compute_checksum`, with the addresses that `inet_pton` packs: the layer with its checksum.
unfoldable pub compute_checksum : Udp → List ℕ → List ℕ → Result Udp
unfolding length_field
compute_checksum u src_bytes dst_bytes = do
  header ← pack_hhhh u.sport u.dport (length_field u) 0
  csum ← transport_checksum src_bytes dst_bytes 17 (header ++ u.payload)
  ok (record u { checksum = some csum })

-- `build`: the layer with its fields filled in, and its bytes.
unfoldable pub build : Udp → Result (Udp × List ℕ)
unfolding length_field
build u = do
  header ← pack_hhhh u.sport u.dport (length_field u) (or_else u.checksum 0)
  ok (
    record u { len = some (length_field u); checksum = some (or_else u.checksum 0) },
    header ++ u.payload,
  )

-- `struct.unpack('>HHHH', raw[:8])`, a field at a time.
abbrev pub field : List ℕ → ℕ → ℕ
field raw i = unpack_be (take 2 (drop i raw))

-- `raw[8:length] if length >= 8 else raw[8:]`.
unfoldable pub payload_of : List ℕ → ℕ → List ℕ
payload_of raw len =
    if ltb len udp_header_len
    then drop udp_header_len raw
    else take (len - udp_header_len) (drop udp_header_len raw)

-- `load_as_udp_layer` on bytes; `Raw` keeps the payload as it is.
unfoldable pub load_as_udp_layer : List ℕ → Result Udp
unfolding udp payload_of
load_as_udp_layer raw =
    if ltb (length raw) udp_header_len
    then raise invalid_data_length_error
    else ok (record (udp (field raw 0) (field raw 2) (some (field raw 4)) (some (field raw 6))) {
      payload = payload_of raw (field raw 4);
    })

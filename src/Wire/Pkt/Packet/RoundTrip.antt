-- ===== src/Wire/Pkt/Packet/RoundTrip.antt =====
-- Read of wxf/wire/pkt/common.go takes back what Marshal made.
use wxf_im.Prelude.{
  ◌≡◌, ap, ◌∙◌, some, ◌++◌, Bytes, bytes_eq, ok, err, not_logic_packet, not_basic_packet,
}
use wxf_im.Wire.Writer.{Written, write-buffer, buffer}
use wxf_im.Wire.Endian.RoundTrip.{read_full-append}
use wxf_im.Wire.Pkt.Message.{Header, Codec, Restores}
use wxf_im.Wire.Pkt.Basic
use wxf_im.Wire.Pkt.Basic.{BasicPkt}
use wxf_im.Wire.Pkt.Logic
use wxf_im.Wire.Pkt.Logic.{LogicPkt}
use wxf_im.Wire.Pkt.Packet.{
  Packet, basic, logic, magic_basic_pkt, magic_logic_pkt, read, read_basic, read_logic, marshal,
  must_read_logic_pkt, must_read_basic_pkt,
}

module _ (codec : Codec Header) where
  -- A packet that Encode can write and Decode can tell apart from what follows.
  abbrev pub IsSendable : Packet → Type 0
  IsSendable (basic p) = Basic.Wire.IsConsistent p
  IsSendable (logic p) = (header_bytes : Bytes) × Logic.Wire.IsEncodable codec p header_bytes

  pub marshal_basic :
      (p : BasicPkt) → marshal codec (basic p) ≡ magic_basic_pkt ++ Basic.Wire.wire p
  unfolding marshal
  marshal_basic p =
      ap (λ (r : Written). r.1.out)
        (Basic.Wire.encode_lem p (buffer magic_basic_pkt)
          ∙ write-buffer (Basic.Wire.wire p) magic_basic_pkt)

  pub marshal_logic :
      (p : LogicPkt) (header_bytes : Bytes)
      → codec.marshal p.header ≡ some header_bytes
      → marshal codec (logic p) ≡ magic_logic_pkt ++ Logic.Wire.wire codec header_bytes p
  unfolding marshal
  marshal_logic p hb h =
      ap (λ (r : Written). r.1.out)
        (Logic.Wire.encode_lem codec p hb (buffer magic_logic_pkt) h
          ∙ write-buffer (Logic.Wire.wire codec hb p) magic_logic_pkt)

  -- Behind the right magic the right decoder runs.
  read_basic-magic : (rest : Bytes) → read codec (magic_basic_pkt ++ rest) ≡ read_basic codec rest
  unfolding read bytes_eq
  read_basic-magic rest = rw (read_full-append magic_basic_pkt rest)

  read_logic-magic : (rest : Bytes) → read codec (magic_logic_pkt ++ rest) ≡ read_logic codec rest
  unfolding read bytes_eq
  read_logic-magic rest = rw (read_full-append magic_logic_pkt rest)

  -- Read takes back any sendable packet that Marshal made, and leaves what follows it on the wire,
  -- where protobuf restores what it marshals.
  pub read-marshal :
      (p : Packet) (rest : Bytes)
      → Restores codec
      → IsSendable p
      → read codec (marshal codec p ++ rest) ≡ ok (p, rest)
  unfolding read_basic read_logic
  read-marshal (basic p) rest restores h = rw (
    marshal_basic p,
    read_basic-magic (Basic.Wire.wire p ++ rest),
    Basic.Wire.decode-wire p rest h,
  )
  read-marshal (logic p) rest restores (hb, h) = rw (
    marshal_logic p hb h.header,
    read_logic-magic (Logic.Wire.wire codec hb p ++ rest),
    Logic.Wire.decode-wire codec p hb rest restores h,
  )

  -- Of sendable packets that Marshal made, MustReadLogicPkt and MustReadBasicPkt accept those of
  -- their own kind and refuse the other, where protobuf restores what it marshals.
  pub must_read-marshal :
      (p : Packet) (rest : Bytes)
      → Restores codec
      → IsSendable p
      → (must_read_logic_pkt codec (marshal codec p ++ rest)
          ≡ elim p [ basic q ↦ err not_logic_packet | logic q ↦ ok (q, rest) ])
        × (must_read_basic_pkt codec (marshal codec p ++ rest)
            ≡ elim p [ basic q ↦ ok (q, rest) | logic q ↦ err not_basic_packet ])
  unfolding must_read_logic_pkt must_read_basic_pkt
  must_read-marshal (basic p) rest restores h =
      let e = read-marshal (basic p) rest restores h in (rw e, rw e)
  must_read-marshal (logic p) rest restores h =
      let e = read-marshal (logic p) rest restores h in (rw e, rw e)

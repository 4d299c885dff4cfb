-- ===== src/Wire/Pkt/Logic/Wire.antt =====
-- The wire form of the packets of wxf/wire/pkt/packet.go.
use mathlib.Core.List.{append_assoc}
use mathlib.Core.Path.{fun_ext}
use wxf_im.Prelude.{◌^◌, ◌<◌, ◌≡◌, ap, ◌∙◌, some, ◌++◌, length, Bytes, ok}
use wxf_im.Wire.Writer.{Writer, write, and_then, write-append}
use wxf_im.Wire.Endian.RoundTrip.{frame, write_bytes_lem, read_bytes-frame}
use wxf_im.Wire.Pkt.Message.{Header, Codec, Restores}
use wxf_im.Wire.Pkt.Logic.{LogicPkt, decode, encode}

module _ (codec : Codec Header) where
  -- The bytes of a packet behind the magic, of its marshalled header.
  abbrev pub wire : Bytes → LogicPkt → Bytes
  wire header_bytes p = frame header_bytes ++ frame p.body

  -- A packet that protobuf can marshal, in frames whose lengths fit an uint32.
  pub record IsEncodable (p : LogicPkt) (header_bytes : Bytes) : Type 0 where
    pub header : codec.marshal p.header ≡ some header_bytes
    pub header_fits : length header_bytes < 2 ^ 32
    pub body_fits : length p.body < 2 ^ 32

  pub encode_lem :
      (p : LogicPkt) (header_bytes : Bytes) (w : Writer)
      → codec.marshal p.header ≡ some header_bytes
      → encode codec p w ≡ write (wire header_bytes p) w
  unfolding encode
  encode_lem p hb w h =
      rw (h, encode)
        (rw write_bytes_lem (
          ap (and_then (write (frame hb) w)) (fun_ext (write_bytes_lem p.body))
          ∙ write-append (frame hb) (frame p.body) w))

  pub decode-wire :
      (p : LogicPkt) (header_bytes rest : Bytes)
      → Restores codec
      → IsEncodable p header_bytes
      → decode codec (wire header_bytes p ++ rest) ≡ ok (p, rest)
  unfolding decode
  decode-wire p hb rest restores h = rw (
    append_assoc,
    read_bytes-frame hb (frame p.body ++ rest) h.header_fits,
    restores p.header hb h.header,
    read_bytes-frame p.body rest h.body_fits,
  )

-- ===== src/Wire/Pkt/Packet.antt =====
-- wxf/wire/pkt/common.go: the two kinds of packet behind their magic.
pub mod RoundTrip
use wxf_im.Prelude.{
  [], ◌∷◌, if◌then◌else◌, Bytes, bytes_eq, Outcome, ok, err, ◌>>=◌, ◌>>◌, bad_magic,
  not_logic_packet, not_basic_packet,
}
use wxf_im.Wire.Writer.{Writer, Written, buffer}
use wxf_im.Wire.Endian.{Reader, read_full}
use wxf_im.Wire.Pkt.Message.{Header, Codec}
use wxf_im.Wire.Pkt.Basic
use wxf_im.Wire.Pkt.Basic.{BasicPkt}
use wxf_im.Wire.Pkt.Logic
use wxf_im.Wire.Pkt.Logic.{LogicPkt}

-- wire.MagicLogicPkt and wire.MagicBasicPkt
abbrev pub magic_logic_pkt : Bytes
magic_logic_pkt = 0xc3 ∷ 0x11 ∷ 0xa3 ∷ 0x65 ∷ []

abbrev pub magic_basic_pkt : Bytes
magic_basic_pkt = 0xc3 ∷ 0x15 ∷ 0xa7 ∷ 0x65 ∷ []

-- What stands behind a `Packet` or the `interface{}` that Read returns.
pub data Packet : Type 0 where
  basic : BasicPkt → Packet
  logic : LogicPkt → Packet

module _ (codec : Codec Header) where
  read_basic : Reader Packet
  read_basic src = do (p, rest) ← Basic.decode Basic.empty src; ok (basic p, rest)

  read_logic : Reader Packet
  read_logic src = do (p, rest) ← Logic.decode codec src; ok (logic p, rest)

  -- Read(r)
  unfoldable pub read : Reader Packet
  unfolding read_basic read_logic
  read src = do
    (magic, rest) ← read_full 4 src
    if bytes_eq magic magic_basic_pkt
        then read_basic rest
        else if bytes_eq magic magic_logic_pkt
        then read_logic rest
        else err bad_magic

  as_logic : Packet × Bytes → Outcome (LogicPkt × Bytes)
  as_logic (logic p, rest) = ok (p, rest)
  as_logic (basic p, rest) = err not_logic_packet

  as_basic : Packet × Bytes → Outcome (BasicPkt × Bytes)
  as_basic (basic p, rest) = ok (p, rest)
  as_basic (logic p, rest) = err not_basic_packet

  -- MustReadLogicPkt(r)
  unfoldable pub must_read_logic_pkt : Reader LogicPkt
  unfolding as_logic
  must_read_logic_pkt src = do val ← read src; as_logic val

  -- MustReadBasicPkt(r)
  unfoldable pub must_read_basic_pkt : Reader BasicPkt
  unfolding as_basic
  must_read_basic_pkt src = do val ← read src; as_basic val

  encode : Packet → Writer → Written
  encode (basic p) w = Basic.encode p w
  encode (logic p) w = Logic.encode codec p w

  abbrev pub magic_of : Packet → Bytes
  magic_of (basic p) = magic_basic_pkt
  magic_of (logic p) = magic_logic_pkt

  -- Marshal(p): what the buffer holds, also where Encode returned an error.
  unfoldable pub marshal : Packet → Bytes
  unfolding encode
  marshal p = (encode p (buffer (magic_of p))).1.out

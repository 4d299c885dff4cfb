-- ===== src/Wire/Pkt/Logic.antt =====
-- wxf/wire/pkt/packet.go: packets that carry a header and a body. Protobuf's codec of the header is
-- a parameter of Decode and Encode, that of a body a parameter of ReadBody and WriteBody.
pub mod Wire
pub mod Build
use wxf_im.Prelude.{
  ℕ, ◌*◌, Option, none, some, List, [], ◌∷◌, ◌==◌, if◌then◌else◌, Bytes, lit, split_two, Outcome,
  ok, err, ◌>>=◌, ◌>>◌, or_fail, external,
}
use wxf_im.Wire.Seq.{next}
use wxf_im.Wire.Writer.{Writer, Written, and_then}
use wxf_im.Wire.Endian.{Reader, read_bytes, write_bytes}
use wxf_im.Wire.Pkt.Message.{Header, Meta, Status, Flag, Codec, empty_header}
use wxf_im.Wire.Pkt.Meta
use wxf_im.Wire.Pkt.Meta.{MetaValue}

pub record LogicPkt : Type 0 where
  pub header : Header
  pub open header use *
  pub body : Bytes

abbrev pub empty : LogicPkt
empty = record { header = empty_header; body = [] }

-- (p *LogicPkt) Decode(r)
unfoldable pub decode : Codec Header → Reader LogicPkt
decode codec src = do
  (header_bytes, rest) ← read_bytes src
  header ← or_fail (codec.unmarshal header_bytes) (external 0)
  (body, rest') ← read_bytes rest
  ok (record { header = header; body = body }, rest')

-- (p *LogicPkt) Encode(w)
unfoldable pub encode : Codec Header → LogicPkt → Writer → Written
encode codec p w = elim (codec.marshal p.header) [
  | none ↦ (err (external 0), w)
  | some header_bytes ↦ and_then (write_bytes header_bytes w) (write_bytes p.body)
]

-- GetMeta(key)
abbrev pub get_meta : LogicPkt → Bytes → Option MetaValue
get_meta p key = Meta.find_meta p.meta key

abbrev pub with_meta : LogicPkt → List Meta → LogicPkt
with_meta p ms = record p { header = record (p.header) { meta = ms } }

-- DelMeta(key)
unfoldable pub del_meta : LogicPkt → Bytes → Outcome LogicPkt
del_meta p key = do ms ← Meta.del_meta key p.meta; ok (with_meta p ms)

-- AddStringMeta(key, value)
unfoldable pub add_string_meta : LogicPkt → Bytes → Bytes → LogicPkt
add_string_meta p key value = with_meta p (Meta.add_string_meta p.meta key value)

-- The first part of the command, of the list that SplitN returns.
abbrev pub service_of : List Bytes → Bytes
service_of (first ∷ second ∷ rest) = first
service_of _ = lit "default"

-- (x *Header) ServiceName()
unfoldable pub service_name : Header → Bytes
service_name h = service_of (split_two b'.' h.command)

abbrev pub HeaderOption : Type 0
HeaderOption = Header → Header

abbrev pub with_status : Status → HeaderOption
with_status status h = record h { status = status }

abbrev pub with_seq : ℕ → HeaderOption
with_seq seq h = record h { sequence = seq }

abbrev pub with_channel : Bytes → HeaderOption
with_channel channel_id h = record h { channel_id = channel_id }

abbrev pub with_dest : Bytes → HeaderOption
with_dest dest h = record h { dest = dest }

unfoldable pub apply_options : List HeaderOption → HeaderOption
apply_options [] h = h
apply_options (option ∷ options) h = apply_options options (option h)

-- New(command, options...), with the counter wire.Seq before and after.
unfoldable pub new : Bytes → List HeaderOption → ℕ → LogicPkt × ℕ
unfolding apply_options
new command options seq =
    let h = apply_options options (record empty_header { command = command }) in
    let (n, seq') = next seq in
    if h.sequence == 0
    then (record { header = record h { sequence = n }; body = [] }, seq')
    else (record { header = h; body = [] }, seq)

-- NewFrom(header)
unfoldable pub new_from : Header → LogicPkt
new_from h = record {
  header = record {
    command = h.command;
    channel_id = h.channel_id;
    sequence = h.sequence;
    flag = Flag.request;
    status = h.status;
    dest = h.dest;
    meta = [];
  };
  body = [];
}

module _ {M : Type 0} (codec : Codec M) where
  -- ReadBody(val)
  unfoldable pub read_body : LogicPkt → Outcome M
  read_body p = or_fail (codec.unmarshal p.body) (external 0)

  -- The bytes that `p.Body, _ = proto.Marshal(val)` leaves.
  abbrev pub marshalled : Option Bytes → Bytes
  marshalled none = []
  marshalled (some bs) = bs

  -- WriteBody(val); `none` is the nil message.
  unfoldable pub write_body : LogicPkt → Option M → LogicPkt
  write_body p none = p
  write_body p (some val) = record p { body = marshalled (codec.marshal val) }

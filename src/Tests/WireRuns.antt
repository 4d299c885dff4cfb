-- ===== src/Tests/WireRuns.antt =====
-- wxf/wire
use wxf_im.Prelude.{◌^◌, ◌<◌, ◌≡◌, refl, true, false, List, [], ◌∷◌, ◌++◌, arith, lit, bytes_eq, ok}
use wxf_im.Wire.Endian.{be_bytes, be_value, read_full, read_uint32, read_bytes}
use wxf_im.Wire.Endian.RoundTrip.{frame}
use wxf_im.Wire.Endian.Exact.{read_bytes-exact}
use wxf_im.Wire.Seq.{max_uint32}
use wxf_im.Wire.Seq.Interleaving.{Callers, IsSafe, calling, run, step, run-lt-max}
use wxf_im.Wire.Pkt.Message.{Header, Meta, Restores, Codec, empty_header, Header-discrete}
use wxf_im.Wire.Pkt.Meta
use wxf_im.Wire.Pkt.Meta.{string_meta}
use wxf_im.Wire.Pkt.Meta.Rounds.{without}
use wxf_im.Wire.Pkt.Meta.Delete.{del_meta-filter}
use wxf_im.Wire.Pkt.Meta.Number.{atoi}
use wxf_im.Wire.Pkt.Logic.{LogicPkt}
use wxf_im.Wire.Pkt.Packet.{logic, read, marshal}
use wxf_im.Wire.Pkt.Packet.RoundTrip.{IsSendable, read-marshal}
use wxf_im.Tests.Codecs.{only, only-marshal, only-Restores}

atoi_negative : atoi (lit "-42") ≡ record { negative = true; magnitude = 42 }
unfolding atoi
atoi_negative = refl

atoi_overflow :
    atoi (lit "9223372036854775808") ≡ record { negative = false; magnitude = 9223372036854775807 }
unfolding atoi
atoi_overflow = refl

atoi_syntax : atoi (lit "12a") ≡ record { negative = false; magnitude = 0 }
unfolding atoi
atoi_syntax = refl

one_frame : read_bytes (0 ∷ 0 ∷ 0 ∷ 1 ∷ 7 ∷ 9 ∷ []) ≡ ok (7 ∷ [], 9 ∷ [])
unfolding read_bytes read_uint32 read_full be_value
one_frame = refl

read_bytes-exact_example : 0 ∷ 0 ∷ 0 ∷ 1 ∷ 7 ∷ 9 ∷ [] ≡ frame (7 ∷ []) ++ 9 ∷ []
read_bytes-exact_example =
    read_bytes-exact (0 ∷ 0 ∷ 0 ∷ 1 ∷ 7 ∷ 9 ∷ []) (7 ∷ []) (9 ∷ []) (omega arith) one_frame

cut_frame : frame (7 ∷ 8 ∷ []) ≡ (0 ∷ 0 ∷ 0 ∷ 2 ∷ 7 ∷ []) ++ 8 ∷ []
unfolding be_bytes
cut_frame = refl

abbrev start : Callers
start = record { num = 1; pc = λ i. calling }

start-IsSafe : IsSafe start
start-IsSafe = record { word = omega arith; below = λ i. tt }

run-lt-max_example : ((run start (0 ∷ 1 ∷ [])).num < 2 ^ 32) × (2 < max_uint32)
unfolding run step
run-lt-max_example = run-lt-max start (0 ∷ 1 ∷ []) 0 2 start-IsSafe refl

sample_meta : List Meta
sample_meta = string_meta (lit "a") (lit "1") ∷ string_meta (lit "b") (lit "2") ∷ []

del_meta-filter_example : Meta.del_meta (lit "a") sample_meta ≡ ok (without (lit "a") sample_meta)
unfolding sample_meta bytes_eq
del_meta-filter_example = del_meta-filter (lit "a") sample_meta (omega arith)

abbrev talk : LogicPkt
talk = record { header = record empty_header { command = lit "chat.user.talk" }; body = 1 ∷ 2 ∷ [] }

abbrev talk_codec : Codec Header
talk_codec = only Header-discrete talk.header (5 ∷ [])

talk_codec-Restores : Restores talk_codec
talk_codec-Restores = only-Restores Header-discrete talk.header (5 ∷ [])

talk-IsSendable : IsSendable talk_codec (logic talk)
talk-IsSendable = (
  5 ∷ [],
  record {
    header = only-marshal Header-discrete talk.header (5 ∷ []);
    header_fits = omega arith;
    body_fits = omega arith;
  },
)

read-marshal_example :
    read talk_codec (marshal talk_codec (logic talk) ++ 9 ∷ []) ≡ ok (logic talk, 9 ∷ [])
read-marshal_example =
    read-marshal talk_codec (logic talk) (9 ∷ []) talk_codec-Restores talk-IsSendable

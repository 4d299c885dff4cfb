-- ===== src/Tests/CrashRuns.antt =====
-- Packets with an entry of their sender's under dest.channels.
use wxf_im.Prelude.{
  ◌≡◌, refl, ap, ◌≢◌, [], ◌∷◌, arith, length, lit, bytes_eq, split, ok, err, panicked, session_nil,
}
use wxf_im.Wire.Pkt.Message.{Header, MetaType, Codec, empty_header, Header-discrete}
use wxf_im.Wire.Pkt.Meta
use wxf_im.Wire.Pkt.Meta.{find_meta}
use wxf_im.Wire.Pkt.Logic.{LogicPkt, add_string_meta}
use wxf_im.Wire.Pkt.Packet.{logic, marshal}
use wxf_im.Conn.{op_binary}
use wxf_im.Container.{meta_dest_server, meta_dest_channels}
use wxf_im.Container.Push.{read_round}
use wxf_im.LogicServer.Handler as LogicHandler
use wxf_im.LogicServer.Handler.{replied}
use wxf_im.Upstream.{forwarded}
use wxf_im.Container.Push.{push_each}
use wxf_im.Wire.Pkt.Meta.{string_meta}
use wxf_im.Upstream.Spoof.{stripped, answer_reaches_others}
use wxf_im.Upstream.Crash.{answer_of, answer_frame, echoed, numeric_channels_crash}
use wxf_im.Tests.Codecs.{several, several-Restores, marshal_at-first, second-marshal}
use wxf_im.Tests.Gateways.{routes}

-- A packet of a service for this gateway, with a number under dest.channels.
abbrev numbered : LogicPkt
numbered = record {
  header = record empty_header {
    command = lit "chat.talk";
    meta =
        record { key = meta_dest_channels; value = lit "7"; type = MetaType.int }
        ∷ string_meta meta_dest_server (lit "gate1")
        ∷ [];
  };
  body = [];
}

abbrev numbered_codec : Codec Header
numbered_codec = several Header-discrete (numbered.header ∷ [])

numeric_channels_crash_example :
    read_round numbered_codec
      (lit "gate1")
      (record { op_code = op_binary; payload = marshal numbered_codec (logic numbered) })
    ≡ panicked
unfolding bytes_eq find_meta
numeric_channels_crash_example =
    numeric_channels_crash numbered_codec (lit "gate1") numbered _
      (several-Restores Header-discrete (numbered.header ∷ []))
      (
        0 ∷ [],
        record {
          header = marshal_at-first Header-discrete 0 numbered.header [];
          header_fits = omega arith;
          body_fits = omega arith;
        },
      )
      refl refl tt

-- A user names the channels of two others.
abbrev spoof : LogicPkt
spoof = record {
  header = record empty_header {
    command = lit "chat.talk";
    meta = string_meta meta_dest_channels (lit "b,e") ∷ [];
  };
  body = 1 ∷ [];
}

abbrev spoof_on : LogicPkt
spoof_on = forwarded routes (lit "c1") spoof

abbrev spoof_answer : LogicPkt
spoof_answer = echoed (lit "gate1") spoof_on

abbrev spoof_codec : Codec Header
spoof_codec = several Header-discrete (spoof_on.header ∷ spoof_answer.header ∷ [])

longer : (a b : LogicPkt) → length a.meta ≢ length b.meta → a.header ≢ b.header
longer a b ne e = ne (ap (λ (h : Header). length h.meta) e)

answer_reaches_others_example :
    let answer = answer_of spoof_codec routes (lit "c1") spoof in
    (LogicHandler.receive spoof_codec
        (λ id. err session_nil)
        (lit "gate1")
        (marshal spoof_codec (logic spoof_on))
      ≡ replied answer)
    × (read_round spoof_codec (lit "gate1") (answer_frame spoof_codec routes (lit "c1") spoof)
        ≡ ok (
            push_each
              (marshal spoof_codec (logic (stripped (lit "c1") spoof)))
              (lit "b" ∷ lit "e" ∷ [])))
unfolding bytes_eq add_string_meta Meta.add_string_meta split
answer_reaches_others_example =
    answer_reaches_others spoof_codec routes (lit "c1") (lit "b,e") spoof (λ id. err session_nil)
      session_nil (several-Restores Header-discrete (spoof_on.header ∷ spoof_answer.header ∷ []))
      (
        0 ∷ [],
        record {
          header = marshal_at-first Header-discrete 0 spoof_on.header (spoof_answer.header ∷ []);
          header_fits = omega arith;
          body_fits = omega arith;
        },
      )
      (
        1 ∷ [],
        record {
          header =
              second-marshal Header-discrete spoof_on.header spoof_answer.header []
                (longer spoof_answer spoof_on (λ e. omega (arith, e)));
          header_fits = omega arith;
          body_fits = omega arith;
        },
      )
      (λ e. cc e) refl refl

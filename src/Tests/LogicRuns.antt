-- ===== src/Tests/LogicRuns.antt =====
-- wxf/services/server/serv/handler.go and wxf/wire/pkt/packet.go
use wxf_im.Prelude.{◌≡◌, refl, [], ◌∷◌, arith, lit, err, session_nil}
use wxf_im.Wire.Pkt.Message.{Header, Codec, empty_header, Header-discrete}
use wxf_im.Wire.Pkt.Logic.{LogicPkt, add_string_meta}
use wxf_im.Wire.Pkt.Meta.{find_meta}
use wxf_im.Wire.Pkt.Packet.{logic, marshal}
use wxf_im.Container.{meta_dest_server}
use wxf_im.Gateway.Handler.{command_login_sign_in}
use wxf_im.LogicServer.Handler.{receive, crashed}
use wxf_im.LogicServer.Handler.Receiving.{forwarded_login_crashes}
use wxf_im.Tests.Codecs.{only, only-marshal, only-Restores}

abbrev signin : LogicPkt
signin = record {
  header = record empty_header { command = command_login_sign_in; channel_id = lit "c" };
  body = [];
}

abbrev forwarded : LogicPkt
forwarded = add_string_meta signin meta_dest_server (lit "gate1")

abbrev login_codec : Codec Header
login_codec = only Header-discrete forwarded.header (5 ∷ [])

forwarded_login_crashes_example :
    receive login_codec
      (λ id. err session_nil)
      (lit "gate1")
      (marshal login_codec (logic forwarded))
    ≡ crashed
unfolding find_meta add_string_meta
forwarded_login_crashes_example =
    forwarded_login_crashes login_codec (λ id. err session_nil) (lit "gate1") (lit "gate1") signin
      (only-Restores Header-discrete forwarded.header (5 ∷ []))
      (
        5 ∷ [],
        record {
          header = only-marshal Header-discrete forwarded.header (5 ∷ []);
          header_fits = omega arith;
          body_fits = omega arith;
        },
      )
      refl refl

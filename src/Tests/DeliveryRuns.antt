-- ===== src/Tests/DeliveryRuns.antt =====
-- From the logic service to the users' channels.
use wxf_im.Prelude.{◌≡◌, refl, List, [], ◌∷◌, arith, Bytes, lit, ok}
use wxf_im.Wire.Pkt.Message.{Header, Codec, empty_header, Header-discrete}
use wxf_im.Wire.Pkt.Meta.{find_meta}
use wxf_im.Wire.Pkt.Logic
use wxf_im.Wire.Pkt.Logic.{LogicPkt}
use wxf_im.Wire.Pkt.Packet.{logic, marshal}
use wxf_im.Conn.{op_binary}
use wxf_im.Container.Push.{read_round}
use wxf_im.LogicServer.Dispatcher.{dispatcher_push}
use wxf_im.Delivery.{addressed, one_each, dispatched-delivered}
use wxf_im.Tests.Codecs.{only, only-marshal, only-Restores}

abbrev reply : LogicPkt
reply = record { header = record empty_header { command = lit "login.signin" }; body = 4 ∷ 2 ∷ [] }

abbrev gateway : Bytes
gateway = lit "gate"

abbrev rest_of_channels : List Bytes
rest_of_channels = lit "c2" ∷ []

abbrev sent_header : Header
sent_header = (addressed gateway (lit "c1" ∷ rest_of_channels) reply).header

abbrev sent_codec : Codec Header
sent_codec = only Header-discrete sent_header (5 ∷ [])

dispatched-delivered_example :
    ((dispatcher_push sent_codec gateway (lit "c1" ∷ rest_of_channels) reply).channel ≡ gateway)
    × (read_round sent_codec gateway (record {
      op_code = op_binary;
      payload = (dispatcher_push sent_codec gateway (lit "c1" ∷ rest_of_channels) reply).payload;
    })
        ≡ ok (one_each (marshal sent_codec (logic reply)) (lit "c1" ∷ rest_of_channels)))
unfolding find_meta Logic.add_string_meta
dispatched-delivered_example =
    dispatched-delivered sent_codec gateway (lit "c1") rest_of_channels reply
      (only-Restores Header-discrete sent_header (5 ∷ []))
      (
        5 ∷ [],
        record {
          header = only-marshal Header-discrete sent_header (5 ∷ []);
          header_fits = omega arith;
          body_fits = omega arith;
        },
      )
      refl refl (omega arith)

-- ===== src/Upstream/Spoof.antt =====
-- The same way as in Upstream.Crash, for a packet that names the channels of others.
use wxf_im.Prelude.{
  ◌≡◌, refl, ap, ◌∙◌, ◌≢◌, List, [], ◌∷◌, Bytes, bytes_eq, bytes_eq_refl, split, Error, Outcome, ok,
  err,
}
use wxf_im.Wire.Pkt.Message
use wxf_im.Wire.Pkt.Message.{Header, Session, Codec, Restores}
use wxf_im.Wire.Pkt.Meta
use wxf_im.Wire.Pkt.Meta.{string_value, string_meta, find_meta}
use wxf_im.Wire.Pkt.Logic.{LogicPkt, add_string_meta, with_meta, del_meta}
use wxf_im.Wire.Pkt.Packet.{logic, marshal}
use wxf_im.Wire.Pkt.Packet.RoundTrip.{IsSendable}
use wxf_im.Container.{meta_dest_server, meta_dest_channels}
use wxf_im.Container.Forward.{Routes}
use wxf_im.Container.Push.{push_each, push_message, read_round}
use wxf_im.Gateway.Handler.{with_channel_id, command_login_sign_in}
use wxf_im.LogicServer.Handler as LogicHandler
use wxf_im.LogicServer.Handler.{replied}
use wxf_im.Upstream.{forwarded}
use wxf_im.Upstream.Crash.{echoed, answer_of, answer_frame, replies_echo, read_answer}

-- The user's packet as others get it: without metadata.
abbrev pub stripped : Bytes → LogicPkt → LogicPkt
stripped user p = with_meta (with_channel_id p user) []

-- The metadata of the echo, where the user's packet had the one entry.
abbrev pub echo_meta : Bytes → Bytes → Bytes → List Message.Meta
echo_meta gateway user ids =
    string_meta meta_dest_channels ids
    ∷ string_meta meta_dest_server gateway
    ∷ string_meta meta_dest_channels user
    ∷ string_meta meta_dest_server gateway
    ∷ []

push_echoed :
    (codec : Codec Header) (gateway user ids : Bytes) (p : LogicPkt)
    → push_message codec gateway (with_meta (with_channel_id p user) (echo_meta gateway user ids))
      ≡ ok (push_each (marshal codec (logic (stripped user p))) (split b',' ids))
unfolding push_message del_meta Meta.del_meta find_meta bytes_eq
push_echoed codec gateway user ids p = rw (bytes_eq_refl gateway) refl

echoed-echo_meta :
    (routes : Routes) (user ids : Bytes) (p : LogicPkt)
    → p.meta ≡ string_meta meta_dest_channels ids ∷ []
    → echoed routes.service_id (forwarded routes user p)
      ≡ with_meta (with_channel_id p user) (echo_meta routes.service_id user ids)
unfolding add_string_meta Meta.add_string_meta
echoed-echo_meta routes user ids p own =
    let gateway = routes.service_id in
    ap
      (λ (ms : List Message.Meta). with_meta (with_channel_id p user) (
        Meta.add_string_meta
          (Meta.add_string_meta (Meta.add_string_meta ms meta_dest_server gateway)
            meta_dest_channels user)
          meta_dest_server gateway))
      own

-- Receive of a logic service whose cache answers with an error, RespErr and readLoop of the gateway
-- together: where the one entry of a packet, before Forward of the gateway adds its own, is a list of
-- channels under dest.channels, the service answers with the packet itself, and the gateway pushes
-- it, with its body and without metadata, to each of the channels that the packet has named and to no
-- other. The packet is no login, it and the answer can be
-- sent, and protobuf restores what it marshals.
pub answer_reaches_others :
    (codec : Codec Header) (routes : Routes) (user ids : Bytes) (p : LogicPkt)
    (cache : Bytes → Outcome Session) (e : Error)
    → Restores codec
    → IsSendable codec (logic (forwarded routes user p))
    → IsSendable codec (logic (echoed routes.service_id (forwarded routes user p)))
    → p.command ≢ command_login_sign_in
    → cache user ≡ err e
    → p.meta ≡ string_meta meta_dest_channels ids ∷ []
    → let answer = answer_of codec routes user p in
      (LogicHandler.receive codec cache routes.service_id
          (marshal codec (logic (forwarded routes user p)))
        ≡ replied answer)
      × (read_round codec routes.service_id (answer_frame codec routes user p)
          ≡ ok (push_each (marshal codec (logic (stripped user p))) (split b',' ids)))
unfolding read_round
answer_reaches_others codec routes user ids p cache e restores sendable sendable' other failed own =
    let pushes =
      ap (push_message codec routes.service_id) (echoed-echo_meta routes user ids p own)
      ∙ push_echoed codec routes.service_id user ids p in
    (
      replies_echo codec routes user p cache e restores sendable other failed,
      rw (read_answer codec routes user p restores sendable', read_round, pushes) refl,
    )

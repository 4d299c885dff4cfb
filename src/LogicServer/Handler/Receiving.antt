-- ===== src/LogicServer/Handler/Receiving.antt =====
-- Messages of gateways, at Receive of wxf/services/server/serv/handler.go.
use mathlib.Core.List.{append-nil}
use wxf_im.Prelude.{
  ◌≡◌, ◌∙◌, ◌≢◌, none, [], arith, if◌then◌else◌, Bytes, bytes_eq, bytes_eq_iff, Error, Outcome, err,
}
use wxf_im.Wire.Pkt.Message.{Header, Codec, Restores, Session}
use wxf_im.Wire.Pkt.Meta.{find_meta}
use wxf_im.Wire.Pkt.Meta.Lookup.{find_meta-add_string_meta}
use wxf_im.Wire.Pkt.Logic.{LogicPkt, add_string_meta}
use wxf_im.Wire.Pkt.Packet.{logic, marshal}
use wxf_im.Wire.Pkt.Packet.RoundTrip.{IsSendable, must_read-marshal}
use wxf_im.Container.{meta_dest_server, meta_dest_channels}
use wxf_im.Container.Push.{push}
use wxf_im.Gateway.Handler.{command_login_sign_in}
use wxf_im.LogicServer.Handler.{replied, crashed, login_session, cached_session, receive}

pub receive-logic :
    (codec : Codec Header) (cache : Bytes → Outcome Session) (agent : Bytes) (p : LogicPkt)
    → Restores codec
    → IsSendable codec (logic p)
    → receive codec cache agent (marshal codec (logic p)) ≡ (
        if bytes_eq p.command command_login_sign_in
        then login_session codec cache p
        else cached_session codec cache agent p)
unfolding receive
receive-logic codec cache agent p restores h =
    rw (rw append-nil at (must_read-marshal codec (logic p) [] restores h).0, receive)

-- A login that a gateway forwards carries the gateway's id under dest.server. Where its sender put
-- nothing under dest.channels, it can be sent, and protobuf restores what it marshals, Receive of
-- the logic service panics.
pub forwarded_login_crashes :
    (codec : Codec Header) (cache : Bytes → Outcome Session) (agent gateway : Bytes) (p : LogicPkt)
    → Restores codec
    → IsSendable codec (logic (add_string_meta p meta_dest_server gateway))
    → p.command ≡ command_login_sign_in
    → find_meta p.meta meta_dest_channels ≡ none
    → receive codec cache agent (marshal codec (logic (add_string_meta p meta_dest_server gateway)))
      ≡ crashed
unfolding add_string_meta login_session bytes_eq
forwarded_login_crashes codec cache agent gateway p restores h login missing =
    let q = add_string_meta p meta_dest_server gateway in
    let absent : find_meta q.meta meta_dest_channels ≡ none =
      find_meta-add_string_meta p.meta meta_dest_server gateway meta_dest_channels ∙ rw missing in
    receive-logic codec cache agent q restores h ∙ rw login (rw (absent, login_session))

-- Where a sendable packet is no login and the cache has no session for its channel, or fails
-- otherwise, what goes back is the request itself with one more metadata entry: the answer is the
-- same for all errors of the cache, and carries the request's own status. Protobuf restores what it
-- marshals.
pub missing_session_echoes :
    (codec : Codec Header) (cache : Bytes → Outcome Session) (agent : Bytes) (p : LogicPkt)
    (e : Error)
    → Restores codec
    → IsSendable codec (logic p)
    → p.command ≢ command_login_sign_in
    → cache p.channel_id ≡ err e
    → receive codec cache agent (marshal codec (logic p))
      ≡ replied (push codec agent (add_string_meta p meta_dest_channels p.channel_id))
unfolding cached_session
missing_session_echoes codec cache agent p e restores h other failed =
    receive-logic codec cache agent p restores h
    ∙ ground (arith, bytes_eq_iff p.command command_login_sign_in, echo)
  where
    echo :
        cached_session codec cache agent p
        ≡ replied (push codec agent (add_string_meta p meta_dest_channels p.channel_id))
    echo = rw (failed, cached_session) (ground arith)

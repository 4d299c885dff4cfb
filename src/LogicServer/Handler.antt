-- ===== src/LogicServer/Handler.antt =====
-- ServeHandler of wxf/services/server/serv/handler.go. The session cache and protobuf's codecs are
-- parameters.
pub mod Receiving
use wxf_im.Prelude.{
  Bool, true, false, Option, none, some, [], ◌∷◌, if◌then◌else◌, Bytes, lit, bytes_eq, Error,
  Outcome, ok, err, panicked, ◌>>=◌, ◌>>◌, session_nil,
}
use wxf_im.Wire.Pkt.Message.{Header, Status, Flag, Session, InnerHandshakeReq, Codec, empty_session}
use wxf_im.Wire.Pkt.Logic.{LogicPkt, get_meta, add_string_meta, new_from}
use wxf_im.Wire.Pkt.Packet.{must_read_logic_pkt}
use wxf_im.Wire.Pkt.Meta.{MetaValue}
use wxf_im.Conn.{Frame}
use wxf_im.Container.{meta_dest_channels}
use wxf_im.Container.Push.{Pushed, push, as_string}
use wxf_im.Gateway.Handler.{command_login_sign_in}

-- What Receive does with a message: nothing, one call of Srv.Push, or a call of Router.Serve with
-- the session.
pub data Reaction : Type 0 where
  ignored : Reaction
  replied : Pushed → Reaction
  served : LogicPkt → Session → Reaction
  crashed : Reaction

-- err == wxf.ErrSessionNil
abbrev pub is_session_nil : Error → Bool
is_session_nil Error.session_nil = true
is_session_nil _ = false

-- The response that RespErr prepares, and does not send.
abbrev pub error_response : LogicPkt → Status → LogicPkt
error_response p status = record (new_from p.header) {
  header = record ((new_from p.header).header) { status = status; flag = Flag.response };
}

module _ (codec : Codec Header) (cache : Bytes → Outcome Session) where
  -- RespErr(ag, p, status): what goes out is `p`, not the response prepared.
  unfoldable pub resp_err : Bytes → LogicPkt → Status → Pushed
  resp_err agent p status =
      let packet = error_response p status in
      push codec agent (add_string_meta p meta_dest_channels p.channel_id)

  -- The session of a login: the type assertion panics where the entry is missing or no string.
  unfoldable pub login_session : LogicPkt → Reaction
  login_session packet = elim (get_meta packet meta_dest_channels) [
    | none ↦ crashed
    | some v ↦ elim (as_string v) [
      | ok server ↦ served packet (record empty_session {
        channel_id = packet.channel_id;
        gate_id = server;
        tags = lit "AutoGenerated" ∷ [];
      })
      | err e ↦ crashed
      | panicked ↦ crashed
    ]
  ]

  unfoldable pub cached_session : Bytes → LogicPkt → Reaction
  unfolding resp_err
  cached_session agent packet = elim (cache packet.channel_id) [
    | ok session ↦ served packet session
    | err e ↦
        if is_session_nil e
        then replied (resp_err agent packet Status.session_not_found)
        else replied (resp_err agent packet Status.system_exception)
    | panicked ↦ crashed
  ]

  -- (h *ServeHandler) Receive(agent, payload), with agent.ID()
  unfoldable pub receive : Bytes → Bytes → Reaction
  unfolding login_session cached_session
  receive agent payload = elim (must_read_logic_pkt codec payload) [
    | ok (packet, rest) ↦
        if bytes_eq packet.command command_login_sign_in
        then login_session packet
        else cached_session agent packet
    | err e ↦ ignored
    | panicked ↦ crashed
  ]

-- req.ServiceId after `_ = proto.Unmarshal(...)`; on an error the message stays empty.
abbrev pub service_id_of : Option InnerHandshakeReq → Bytes
service_id_of none = []
service_id_of (some req) = req.service_id

-- (h *ServeHandler) Accept(conn, timeout), given what conn.ReadFrame() returns
unfoldable pub accept : Codec InnerHandshakeReq → Outcome Frame → Outcome Bytes
accept codec frame = do f ← frame; ok (service_id_of (codec.unmarshal f.payload))

-- ===== src/Upstream/Crash.antt =====
-- Packets of services at readLoop and pushMessage of wxf/container/container.go, and what Receive and
-- RespErr of wxf/services/server/serv/handler.go send there.
use mathlib.Core.List.{append-nil}
use wxf_im.Prelude.{
  ◌≡◌, refl, some, [], Bytes, bytes_eq_refl, Error, Outcome, ok, err, panicked, ◌≢◌,
}
use wxf_im.Wire.Pkt.Message.{Header, Session, Codec, Restores}
use wxf_im.Wire.Pkt.Meta.{MetaValue, int_value, float_value, string_value}
use wxf_im.Wire.Pkt.Logic.{LogicPkt, add_string_meta, get_meta}
use wxf_im.Wire.Pkt.Packet.{logic, marshal, must_read_logic_pkt}
use wxf_im.Wire.Pkt.Packet.RoundTrip.{IsSendable, must_read-marshal}
use wxf_im.Conn.{Frame, op_binary}
use wxf_im.Container.{meta_dest_server, meta_dest_channels}
use wxf_im.Container.Forward.{Routes}
use wxf_im.Container.Push.{Pushed, as_string, push, push_message, read_round}
use wxf_im.Gateway.Handler.{command_login_sign_in}
use wxf_im.LogicServer.Handler as LogicHandler
use wxf_im.LogicServer.Handler.{replied, cached_session, resp_err}
use wxf_im.LogicServer.Handler.Receiving.{missing_session_echoes}
use wxf_im.Upstream.{forwarded}

-- What RespErr makes of a packet, and Push of that: the message that reaches the gateway.
abbrev pub echoed : Bytes → LogicPkt → LogicPkt
echoed gateway q =
    add_string_meta (add_string_meta q meta_dest_channels q.channel_id) meta_dest_server gateway

-- An int or a float64, which GetMeta gives for an entry of these types.
abbrev pub IsNumber : MetaValue → Type 0
IsNumber (int_value n) = Unit {0}
IsNumber (float_value t) = Unit {0}
IsNumber (string_value t) = ⊥

as_string-panicked : (v : MetaValue) → IsNumber v → as_string v ≡ panicked
as_string-panicked (int_value n) h = refl
as_string-panicked (float_value t) h = refl
as_string-panicked (string_value t) h = absurd h

module _ (codec : Codec Header) (gateway : Bytes) where
  -- A packet for this gateway whose dest.channels is no string.
  push_message-panicked :
      (r : LogicPkt) (v : MetaValue)
      → get_meta r meta_dest_server ≡ some (string_value gateway)
      → get_meta r meta_dest_channels ≡ some v
      → IsNumber v
      → push_message codec gateway r ≡ panicked
  unfolding push_message
  push_message-panicked r v server channels number =
      rw (server, bytes_eq_refl gateway, channels, as_string-panicked v number) refl

  read_round-panicked :
      (r : LogicPkt) (f : Frame)
      → f.op_code ≡ op_binary
      → must_read_logic_pkt codec f.payload ≡ ok (r, [])
      → push_message codec gateway r ≡ panicked
      → read_round codec gateway f ≡ panicked
  unfolding read_round
  read_round-panicked r f binary read crash = rw (binary, read, crash) refl

-- The answer of the logic service, as it pushes it to the gateway, and its frame there.
abbrev pub answer_of : Codec Header → Routes → Bytes → LogicPkt → Pushed
answer_of codec routes user p =
    let q = forwarded routes user p in
    push codec routes.service_id (add_string_meta q meta_dest_channels q.channel_id)

abbrev pub answer_frame : Codec Header → Routes → Bytes → LogicPkt → Frame
answer_frame codec routes user p = record {
  op_code = op_binary;
  payload = (answer_of codec routes user p).payload;
}

-- What a logic service makes of a forwarded packet for which its cache has an error.
pub replies_echo :
    (codec : Codec Header) (routes : Routes) (user : Bytes) (p : LogicPkt)
    (cache : Bytes → Outcome Session) (e : Error)
    → Restores codec
    → IsSendable codec (logic (forwarded routes user p))
    → p.command ≢ command_login_sign_in
    → cache user ≡ err e
    → LogicHandler.receive codec cache routes.service_id
        (marshal codec (logic (forwarded routes user p)))
      ≡ replied (answer_of codec routes user p)
unfolding add_string_meta
replies_echo codec routes user p cache e restores sendable other failed =
    missing_session_echoes codec cache routes.service_id (forwarded routes user p) e restores
      sendable other failed

-- The gateway reads the packet out of the answer.
pub read_answer :
    (codec : Codec Header) (routes : Routes) (user : Bytes) (p : LogicPkt)
    → Restores codec
    → IsSendable codec (logic (echoed routes.service_id (forwarded routes user p)))
    → must_read_logic_pkt codec (answer_of codec routes user p).payload
      ≡ ok (echoed routes.service_id (forwarded routes user p), [])
unfolding push add_string_meta
read_answer codec routes user p restores sendable =
    let r = echoed routes.service_id (forwarded routes user p) in
    rw append-nil at (must_read-marshal codec (logic r) [] restores sendable).0

-- At a packet that reaches a gateway from one of its services, is for this gateway, and whose first entry under
-- dest.channels is a number, the round of readLoop panics at the
-- assertion that the value is a string. The packet can be sent, and protobuf restores what it marshals.
pub numeric_channels_crash :
    (codec : Codec Header) (gateway : Bytes) (r : LogicPkt) (v : MetaValue)
    → Restores codec
    → IsSendable codec (logic r)
    → get_meta r meta_dest_server ≡ some (string_value gateway)
    → get_meta r meta_dest_channels ≡ some v
    → IsNumber v
    → read_round codec gateway (record { op_code = op_binary; payload = marshal codec (logic r) })
      ≡ panicked
numeric_channels_crash codec gateway r v restores sendable server channels number =
    read_round-panicked codec gateway r
      (record { op_code = op_binary; payload = marshal codec (logic r) }) refl
      (rw append-nil at (must_read-marshal codec (logic r) [] restores sendable).0)
      (push_message-panicked codec gateway r v server channels number)

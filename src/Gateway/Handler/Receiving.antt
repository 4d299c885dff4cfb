-- ===== src/Gateway/Handler/Receiving.antt =====
-- Messages of users, at Receive of wxf/services/gateway/serv/handler.go.
use mathlib.Core.List.{append-nil}
use wxf_im.Prelude.{◌≡◌, refl, some, [], arith, ◌==◌, if◌then◌else◌, Bytes, Error, ok, err}
use wxf_im.Wire.Pkt.Message.{Header, Codec, Restores}
use wxf_im.Wire.Pkt.Basic.{code_ping}
use wxf_im.Wire.Pkt.Logic.{service_name}
use wxf_im.Wire.Pkt.Packet.{Packet, basic, logic, read, marshal}
use wxf_im.Wire.Pkt.Packet.RoundTrip.{IsSendable, read-marshal}
use wxf_im.Container.Forward.{Routes, forward}
use wxf_im.Gateway.Handler.{ignored, answered, reaction, with_channel_id, pong, react, receive}

-- What Receive does with the bytes of a sendable packet, where protobuf restores what it marshals:
-- a ping is answered by a pong that Read takes for one, other heartbeats are ignored, and a logic
-- packet goes to the service that its command names, under the channel id of the connection
-- whatever id the user wrote into it.
pub receive-marshal :
    (codec : Codec Header) (routes : Routes) (agent : Bytes) (p : Packet)
    → Restores codec
    → IsSendable codec p
    → (receive codec routes agent (marshal codec p) ≡ elim p [
      | basic q ↦ if q.code == code_ping then answered (marshal codec (basic pong)) else ignored
      | logic q ↦
          reaction (forward codec routes (service_name q.header) (some (with_channel_id q agent)))
    ])
      × (read codec (marshal codec (basic pong)) ≡ ok (basic pong, []))
unfolding receive
receive-marshal codec routes agent p restores h = (
  rw (rw append-nil at (read-marshal codec p [] restores h), receive) (by_kind p),
  rw append-nil at (read-marshal codec (basic pong) [] restores (omega arith)),
)
  where
    by_kind :
        (q : Packet)
        → react codec routes agent q ≡ elim q [
          | basic b ↦ if b.code == code_ping then answered (marshal codec (basic pong)) else ignored
          | logic m ↦
              reaction
                (forward codec routes (service_name m.header) (some (with_channel_id m agent)))
        ]
    by_kind (basic b) = refl
    by_kind (logic m) = unfold service_name in refl

-- A payload that is no packet is dropped without an answer.
pub receive_broken :
    (codec : Codec Header) (routes : Routes) (agent payload : Bytes) (e : Error)
    → read codec payload ≡ err e
    → receive codec routes agent payload ≡ ignored
unfolding receive
receive_broken codec routes agent payload e h = rw (h, receive)

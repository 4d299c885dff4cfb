-- ===== src/Tests/ExampleRuns.antt =====
-- wxf/examples
use wxf_im.Prelude.{◌≡◌, refl, ap, ◌≢◌, none, some, [], ◌∷◌, arith, lit, ok}
use native.Mathlib.Decide.{ℕ_discrete}
use wxf_im.Wire.Seq.{next}
use wxf_im.Wire.Pkt.Message.{Flag, Header, LoginReq, Codec, empty_header, Header-discrete}
use wxf_im.Wire.Pkt.Logic
use wxf_im.Wire.Pkt.Logic.{LogicPkt, apply_options, write_body}
use wxf_im.Wire.Pkt.Packet.{logic, marshal}
use wxf_im.Conn.{op_binary}
use wxf_im.Wire.Token.{generate}
use wxf_im.Conn.Websocket.{WsFrame, read_frame}
use wxf_im.Gateway.Handler.{Login, accept, command_login_sign_in}
use wxf_im.Container.Forward.{forward}
use wxf_im.Gateway.Handler.{after_forward, login_packet, sn_login}
use wxf_im.Examples.Dialer.{Dialling, token_of, request_of, dial_and_hand_shake}
use wxf_im.Examples.Handshake.{request, request_frame, given_id, handshake-forwarded}
use wxf_im.Tests.Gateways.{routes}
use wxf_im.Tests.Codecs.{
  several, several-Restores, marshal_at-first, second-marshal, only, only-marshal, only-Restores,
}
use wxf_im.Tests.Sockets.{ws, ws-IsDocumented}

abbrev signin : Header
signin = record empty_header { command = command_login_sign_in; sequence = 2 }

abbrev ack : LogicPkt
ack = record {
  header = record signin { channel_id = lit "gate1_ann_7"; flag = Flag.response };
  body = 9 ∷ [];
}

abbrev codec : Codec Header
codec = several Header-discrete (signin ∷ ack.header ∷ [])

LoginReq-discrete : Discrete LoginReq
LoginReq-discrete = hlevel ℕ_discrete

abbrev req_codec : Codec LoginReq
req_codec = only LoginReq-discrete (request_of (lit "t")) (3 ∷ [])

abbrev answer : WsFrame
answer = ws.new_frame op_binary (marshal codec (logic ack))

abbrev dialling : Dialling
dialling = record {
  id = lit "ann";
  tomorrow = 100;
  encoder = λ secret t. ok (lit "t");
  header = codec;
  login_req = req_codec;
  mask = 1 ∷ 2 ∷ 3 ∷ 4 ∷ [];
  wrote = ok tt;
  answer = ok answer;
}

abbrev gateway : Login
gateway = record {
  service_id = lit "gate1";
  header = codec;
  login_req = req_codec;
  session = record { marshal = λ m. some (2 ∷ []); unmarshal = λ bs. none };
  decoder = λ secret text. some (token_of dialling);
  now = 50;
  remote_addr = lit "10.0.0.7:4711";
}

abbrev sent_request : LogicPkt
sent_request = request dialling 1 (lit "t")

request_header : sent_request.header ≡ signin
unfolding Logic.new apply_options write_body next
request_header = refl

headers_differ : ack.header ≢ signin
headers_differ e =
    let flags : Flag.response ≡ Flag.request = ap (λ (h : Header). h.flag) e in cc flags

handshake-forwarded_example :
    let h = dial_and_hand_shake ws dialling (ok []) 1 in
    let id = given_id ws dialling 1 (lit "t") gateway 6 in
    (h.written ≡ request_frame ws dialling 1 (lit "t") ∷ [])
    × (accept routes gateway (read_frame ws (ok (request_frame ws dialling 1 (lit "t")))) 6
        ≡ after_forward routes gateway id (next 6).1 (
            forward codec routes sn_login
              (some (login_packet routes gateway sent_request (token_of dialling) id))))
    × (h.result ≡ ok tt)
unfolding Logic.new apply_options write_body next generate LoginReq-discrete ℕ_discrete
handshake-forwarded_example =
    handshake-forwarded ws dialling 1 (lit "t") routes gateway 6 ack answer (3 ∷ []) ws-IsDocumented
      (several-Restores Header-discrete (signin ∷ ack.header ∷ []))
      (only-Restores LoginReq-discrete (request_of (lit "t")) (3 ∷ [])) refl refl refl refl
      (omega arith) (only-marshal LoginReq-discrete (request_of (lit "t")) (3 ∷ []))
      (
        0 ∷ [],
        record {
          header = marshal_at-first Header-discrete 0 signin (ack.header ∷ []);
          header_fits = omega arith;
          body_fits = omega arith;
        },
      )
      (
        1 ∷ [],
        record {
          header = second-marshal Header-discrete signin ack.header [] headers_differ;
          header_fits = omega arith;
          body_fits = omega arith;
        },
      )
      refl refl refl

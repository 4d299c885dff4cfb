-- ===== src/Examples/Handshake.antt =====
-- ClientDialer of wxf/examples/dialer/client_dialer.go meets Accept of
-- wxf/services/gateway/serv/handler.go.
use mathlib.Core.List.{append-nil}
use wxf_im.Prelude.{ℕ, ◌≤◌, ◌≡◌, refl, ap, ◌∙◌, some, [], ◌∷◌, Bytes, ok, guard, login_failed}
use wxf_im.Wire.Seq.{next}
use wxf_im.Wire.Token.{default_secret, generate}
use wxf_im.Wire.Pkt.Message.{Header, Restores, Codec}
use wxf_im.Wire.Pkt.Logic
use wxf_im.Wire.Pkt.Logic.{LogicPkt, apply_options, write_body, read_body}
use wxf_im.Wire.Pkt.Logic.Build.{read_body-write_body}
use wxf_im.Wire.Pkt.Packet.{logic, marshal, must_read_logic_pkt}
use wxf_im.Wire.Pkt.Packet.RoundTrip.{IsSendable, must_read-marshal}
use wxf_im.Conn.{Frame, op_binary}
use wxf_im.Conn.Websocket.{WsFrame, Ws, IsDocumented, read_frame}
use wxf_im.Container.Forward.{Routes, forward}
use wxf_im.Channel.WsMessages.{as_frame-client_message}
use wxf_im.Gateway.Handler.{
  Login, accept, after_forward, login_packet, sn_login, command_login_sign_in,
}
use wxf_im.Gateway.Handler.Admitting.{accept-after_forward}
use wxf_im.Gateway.ChannelId.{channel_id}
use wxf_im.Examples.Dialer.{
  Dialling, HandShake, token_of, request_of, login_request, is_success, after_answer,
  dial_and_hand_shake,
}

must_read_sendable :
    (codec : Codec Header) (p : LogicPkt)
    → Restores codec
    → IsSendable codec (logic p)
    → must_read_logic_pkt codec (marshal codec (logic p)) ≡ ok (p, [])
must_read_sendable codec p restores h =
    rw append-nil at (must_read-marshal codec (logic p) [] restores h).0

-- A packet that Marshal made, as the answer in a frame of the server.
after_answer-marshal :
    (codec : Codec Header) (ack : LogicPkt) (frame : WsFrame)
    → Restores codec
    → IsSendable codec (logic ack)
    → frame.payload ≡ marshal codec (logic ack)
    → after_answer codec (ok frame) ≡ guard (is_success ack.status) login_failed
unfolding after_answer
after_answer-marshal codec ack frame restores h whole =
    rw (whole, must_read_sendable codec ack restores h) refl

login_request-command :
    (d : Dialling) (token : Bytes) (seq : ℕ)
    → (login_request d token seq).0.command ≡ command_login_sign_in
unfolding Logic.new apply_options write_body
login_request-command d token seq = refl

-- The packet that the dialer sends, and the frame on the connection.
abbrev pub request : Dialling → ℕ → Bytes → LogicPkt
request d seq token = (login_request d token seq).0

abbrev pub request_frame : Ws → Dialling → ℕ → Bytes → WsFrame
request_frame ws d seq token =
    ws.client_message d.mask op_binary (marshal d.header (logic (request d seq token)))

module _ (ws : Ws) (d : Dialling) (seq : ℕ) (token : Bytes) where
  hand_shake_lem :
      generate d.encoder default_secret (token_of d) ≡ ok token
      → d.wrote ≡ ok tt
      → dial_and_hand_shake ws d (ok []) seq ≡ record {
        written = request_frame ws d seq token ∷ [];
        seq = (login_request d token seq).1;
        result = after_answer d.header d.answer;
      }
  unfolding dial_and_hand_shake
  hand_shake_lem made wrote = rw (made, wrote) refl

  -- The channel id that the gateway gives to the account of the dialer.
  abbrev pub given_id : Login → ℕ → Bytes
  given_id l gateway_seq = channel_id l.service_id (token_of d).account (next gateway_seq).0

  -- ClientDialer at a gateway: Accept reads the dialer's login request out of what the dialer writes,
  -- takes its token, and hands Forward the login with the session of the dialer's account and the app
  -- "kim", under the next channel id of that account; what Accept returns is left to Forward. The dialer
  -- returns the connection exactly where the answer that it reads has the status Success. The two
  -- sides use the same codecs, which restore what they marshal; the JWT library decodes what it signed; the
  -- gateway's clock is not a day ahead; the packages' calls succeed, and the packets can be sent.
  pub handshake-forwarded :
      (routes : Routes) (l : Login) (gateway_seq : ℕ) (ack : LogicPkt) (back : WsFrame)
      (body : Bytes)
      → IsDocumented ws
      → Restores d.header
      → Restores d.login_req
      → l.header ≡ d.header
      → l.login_req ≡ d.login_req
      → generate d.encoder default_secret (token_of d) ≡ ok token
      → l.decoder default_secret token ≡ some (token_of d)
      → l.now ≤ d.tomorrow
      → d.login_req.marshal (request_of token) ≡ some body
      → IsSendable d.header (logic (request d seq token))
      → IsSendable d.header (logic ack)
      → d.wrote ≡ ok tt
      → d.answer ≡ ok back
      → back.payload ≡ marshal d.header (logic ack)
      → let h = dial_and_hand_shake ws d (ok []) seq in
        let id = given_id l gateway_seq in
        (h.written ≡ request_frame ws d seq token ∷ [])
        × (accept routes l (read_frame ws (ok (request_frame ws d seq token))) gateway_seq
            ≡ after_forward routes l id (next gateway_seq).1 (
                forward l.header routes sn_login
                  (some (login_packet routes l (request d seq token) (token_of d) id))))
        × (h.result ≡ guard (is_success ack.status) login_failed)
  unfolding read_frame
  handshake-forwarded routes l gateway_seq ack back body doc restores restores' same same' made
        signed fresh marshals sendable sendable' wrote answered whole =
      let payload = marshal d.header (logic (request d seq token)) in
      let arrives : Frame = record { op_code = op_binary; payload = payload } in
      let done = hand_shake_lem made wrote in
      let has_packet =
        ap (λ c. must_read_logic_pkt c payload) same
        ∙ must_read_sendable d.header (request d seq token) restores sendable in
      let has_body =
        ap (λ c. read_body c (request d seq token)) same'
        ∙ (read_body-write_body d.login_req (Logic.new command_login_sign_in [] seq).0
            (request_of token) body restores' marshals).0 in
      (
        ap (λ (h : HandShake). h.written) done,
        ap (λ (f : Frame). accept routes l (ok f) gateway_seq)
              (as_frame-client_message ws doc d.mask op_binary payload)
            ∙ accept-after_forward routes l arrives (request d seq token) [] (request_of token)
                (token_of d) gateway_seq has_packet (login_request-command d token seq) has_body
                signed fresh,
        ap (λ (h : HandShake). h.result) done
            ∙ ap (after_answer d.header) answered
            ∙ after_answer-marshal d.header ack back restores sendable' whole,
      )

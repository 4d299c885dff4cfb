-- ===== src/Gateway/Handler/Admitting.antt =====
-- Logins that pass, at Accept of wxf/services/gateway/serv/handler.go.
use wxf_im.Prelude.{
  ℕ, ◌≤◌, ◌≡◌, refl, ap, ◌∙◌, true, false, some, arith, ltb, Bytes, bytes_eq, bytes_eq_refl, ok,
}
use wxf_im.Wire.Seq.{next}
use wxf_im.Wire.Token.{Token, parse, valid, default_secret}
use wxf_im.Wire.Pkt.Message.{LoginReq}
use wxf_im.Wire.Pkt.Logic
use wxf_im.Wire.Pkt.Logic.{LogicPkt}
use wxf_im.Wire.Pkt.Packet.{must_read_logic_pkt}
use wxf_im.Conn.{Frame}
use wxf_im.Container.Forward.{Routes, forward}
use wxf_im.Gateway.ChannelId.{channel_id, generate_channel_id}
use wxf_im.Gateway.Handler.{
  Login, command_login_sign_in, sn_login, accept, after_packet, after_body, after_token,
  after_forward, admit, login_packet,
}

module _ (routes : Routes) (l : Login) where
  parse-valid :
      (text : Bytes) (tk : Token)
      → l.decoder default_secret text ≡ some tk
      → l.now ≤ tk.exp
      → parse l.decoder l.now default_secret text ≡ ok tk
  unfolding parse valid
  parse-valid text tk signed fresh =
      let late : ltb tk.exp l.now ≡ false = ground arith in rw (signed, late) refl

  after_packet-login :
      (req : LogicPkt) (rest : Bytes) (seq : ℕ)
      → req.command ≡ command_login_sign_in
      → after_packet routes l seq (ok (req, rest))
        ≡ after_body routes l req seq (Logic.read_body l.login_req req)
  unfolding after_packet
  after_packet-login req rest seq command =
      let same : bytes_eq req.command command_login_sign_in ≡ true =
        ap (λ c. bytes_eq c command_login_sign_in) command ∙ bytes_eq_refl command_login_sign_in in
      rw same refl

  -- A login request whose token is signed and has not expired is forwarded under the next channel id of
  -- its account, and what Accept returns is left to Forward.
  pub accept-after_forward :
      (f : Frame) (req : LogicPkt) (rest : Bytes) (login : LoginReq) (tk : Token) (seq : ℕ)
      → must_read_logic_pkt l.header f.payload ≡ ok (req, rest)
      → req.command ≡ command_login_sign_in
      → Logic.read_body l.login_req req ≡ ok login
      → l.decoder default_secret login.token ≡ some tk
      → l.now ≤ tk.exp
      → let id = channel_id l.service_id tk.account (next seq).0 in
        accept routes l (ok f) seq
        ≡ after_forward routes l id
            (next seq).1
            (forward l.header routes sn_login (some (login_packet routes l req tk id)))
  unfolding accept after_body after_token admit generate_channel_id
  accept-after_forward f req rest login tk seq packet command body signed fresh =
      ap (after_packet routes l seq) packet
      ∙ after_packet-login req rest seq command
      ∙ ap (after_body routes l req seq) body
      ∙ ap (after_token routes l req seq) (parse-valid login.token tk signed fresh)

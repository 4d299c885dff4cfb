-- ===== src/Examples/Dialer.antt =====
-- ClientDialer of wxf/examples/dialer/client_dialer.go: the login of a user over a WebSocket. What
-- the network, the packages and the clock give is an argument.
use wxf_im.Prelude.{
  ℕ, Bool, true, false, List, [], ◌∷◌, ◌++◌, Bytes, lit, Outcome, ok, err, panicked, ◌>>=◌, guard,
  login_failed, some,
}
use wxf_im.Wire.Token.{Token, Encoder, default_secret, generate}
use wxf_im.Wire.Pkt.Message.{Header, Status, LoginReq, Codec}
use wxf_im.Wire.Pkt.Logic
use wxf_im.Wire.Pkt.Logic.{LogicPkt, write_body}
use wxf_im.Wire.Pkt.Packet.{logic, marshal, must_read_logic_pkt}
use wxf_im.Conn.{op_binary}
use wxf_im.Conn.Websocket.{WsFrame, Ws}
use wxf_im.Gateway.Handler.{command_login_sign_in}

-- What DialAndHandShake asks of others: ctx.Id, the time one day from now, the codecs, what the JWT
-- library signs, the mask of the frame, and what writing it and ws.ReadFrame return.
pub record Dialling : Type 0 where
  pub id : Bytes
  pub tomorrow : ℕ
  pub encoder : Encoder
  pub header : Codec Header
  pub login_req : Codec LoginReq
  pub mask : Bytes
  pub wrote : Outcome (Unit {0})
  pub answer : Outcome WsFrame

-- What it leaves: the frames on the connection, the counter, and whether it returns the connection.
pub record HandShake : Type 0 where
  pub written : List WsFrame
  pub seq : ℕ
  pub result : Outcome (Unit {0})

abbrev pub token_of : Dialling → Token
token_of d = record { account = d.id; app = lit "kim"; exp = d.tomorrow }

abbrev pub request_of : Bytes → LoginReq
request_of token = record { token = token; isp = []; zone = []; tags = [] }

-- pkt.New(wire.CommandLoginSignIn).WriteBody(&pkt.LoginReq{...}), with the counter
abbrev pub login_request : Dialling → Bytes → ℕ → LogicPkt × ℕ
login_request d token seq =
    let (p, seq') = Logic.new command_login_sign_in [] seq in
    (write_body d.login_req p (some (request_of token)), seq')

-- ack.Status == pkt.Status_Success
abbrev pub is_success : Status → Bool
is_success Status.success = true
is_success _ = false

-- What follows ws.ReadFrame: the payload is taken as it stands in the frame.
unfoldable pub after_answer : Codec Header → Outcome WsFrame → Outcome (Unit {0})
after_answer codec answer = do
  frame ← answer
  (ack, rest) ← must_read_logic_pkt codec frame.payload
  guard (is_success ack.status) login_failed

-- What follows wsutil.WriteClientBinary, whose frame goes out where it returns nil.
abbrev pub after_request : Dialling → WsFrame → ℕ → List WsFrame → Outcome (Unit {0}) → HandShake
after_request d frame seq sent (ok u) = record {
  written = sent ++ frame ∷ [];
  seq = seq;
  result = after_answer d.header d.answer;
}
after_request d frame seq sent (err e) = record { written = sent; seq = seq; result = err e }
after_request d frame seq sent panicked = record { written = sent; seq = seq; result = panicked }

-- What follows token.Generate.
abbrev pub after_generate : Ws → Dialling → ℕ → List WsFrame → Outcome Bytes → HandShake
after_generate ws d seq sent (ok token) =
    let (p, seq') = login_request d token seq in
    let frame = ws.client_message d.mask op_binary (marshal d.header (logic p)) in
    after_request d frame seq' sent d.wrote
after_generate ws d seq sent (err e) = record { written = sent; seq = seq; result = err e }
after_generate ws d seq sent panicked = record { written = sent; seq = seq; result = panicked }

-- (d *ClientDialer) DialAndHandShake(ctx), by what ws.Dial returns: a connection, with what was
-- written to it
unfoldable pub dial_and_hand_shake : Ws → Dialling → Outcome (List WsFrame) → ℕ → HandShake
dial_and_hand_shake ws d (ok sent) seq =
    after_generate ws d seq sent (generate d.encoder default_secret (token_of d))
dial_and_hand_shake ws d (err e) seq = record { written = []; seq = seq; result = err e }
dial_and_hand_shake ws d panicked seq = record { written = []; seq = seq; result = panicked }

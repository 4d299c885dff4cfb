-- ===== src/Gateway/Handler.antt =====
-- Handler of wxf/services/gateway/serv/handler.go.
pub mod Accepting
pub mod Unrouted
pub mod Admitting
pub mod Receiving
use wxf_im.Prelude.{
  ℕ, Option, none, some, List, [], ◌∷◌, ◌==◌, if◌then◌else◌, length, Bytes, lit, bytes_eq, Error,
  Outcome, ok, err, panicked, invalid_command,
}
use wxf_im.Wire.Token.{Token, Decoder, default_secret, parse}
use wxf_im.Wire.Pkt.Message.{Header, Status, Session, LoginReq, Codec, empty_session}
use wxf_im.Wire.Pkt.Basic.{BasicPkt, code_ping, code_pong}
use wxf_im.Wire.Pkt.Logic
use wxf_im.Wire.Pkt.Logic.{LogicPkt, new_from, with_channel, service_name}
use wxf_im.Wire.Pkt.Packet.{Packet, basic, logic, read, marshal, must_read_logic_pkt}
use wxf_im.Conn.{Frame, op_binary}
use wxf_im.Container.Clients.{Client}
use wxf_im.Container.Forward.{Routes, forward}
use wxf_im.Gateway.ChannelId.{generate_channel_id, get_ip}

abbrev pub command_login_sign_in : Bytes
command_login_sign_in = lit "login.signin"

abbrev pub command_login_sign_out : Bytes
command_login_sign_out = lit "login.signout"

-- wire.SNLogin
abbrev pub sn_login : Bytes
sn_login = lit "chat"

-- What Receive does with a message: nothing, a Push to the agent, or a Send of a client. Errors of
-- Forward are only logged.
pub data Reaction : Type 0 where
  ignored : Reaction
  answered : Bytes → Reaction
  sent : Client × Bytes → Reaction
  failed : Error → Reaction
  crashed : Reaction

abbrev pub reaction : Outcome (Client × Bytes) → Reaction
reaction (ok s) = sent s
reaction (err e) = failed e
reaction panicked = crashed

abbrev pub with_channel_id : LogicPkt → Bytes → LogicPkt
with_channel_id p id = record p { header = record (p.header) { channel_id = id } }

abbrev pub pong : BasicPkt
pong = record { code = code_pong; length = 0; body = [] }

module _ (codec : Codec Header) (routes : Routes) where
  react : Bytes → Packet → Reaction
  react agent (basic p) =
      if p.code == code_ping then answered (marshal codec (basic pong)) else ignored
  react agent (logic p) =
      let p' = with_channel_id p agent in
      reaction (forward codec routes (service_name p'.header) (some p'))

  -- (x *Handler) Receive(agent, payload), with agent.ID()
  unfoldable pub receive : Bytes → Bytes → Reaction
  unfolding react
  receive agent payload = elim (read codec payload) [
    | ok (packet, rest) ↦ react agent packet
    | err e ↦ ignored
    | panicked ↦ crashed
  ]

  -- (x *Handler) Disconnect(id): it returns nil whatever Forward answers. The new packet takes a
  -- number off the counter.
  unfoldable pub disconnect : Bytes → ℕ → Reaction × ℕ
  disconnect id seq =
      let (p, seq') = Logic.new command_login_sign_out (with_channel id ∷ []) seq in
      (reaction (forward codec routes sn_login (some p)), seq')

-- What Accept reads and asks of others: the service id, the codecs, the time, and the remote
-- address.
pub record Login : Type 0 where
  pub service_id : Bytes
  pub header : Codec Header
  pub login_req : Codec LoginReq
  pub session : Codec Session
  pub decoder : Decoder
  pub now : ℕ
  pub remote_addr : Bytes

-- What Accept leaves: the frames written to the connection, the message sent to the login service,
-- the counter, and the channel id or the error that it returns.
pub record Accepted : Type 0 where
  pub written : List Frame
  pub sent : Option (Client × Bytes)
  pub seq : ℕ
  pub result : Outcome Bytes

abbrev pub refuse : ℕ → Outcome Bytes → Accepted
refuse seq result = record { written = []; sent = none; seq = seq; result = result }

-- The session that is forwarded.
abbrev pub session_of : Login → Bytes → Token → Session
session_of l id tk = record empty_session {
  channel_id = id;
  gate_id = l.service_id;
  account = tk.account;
  remote_ip = get_ip l.remote_addr;
  app = tk.app;
}

-- The response to a request that is refused with a status.
abbrev pub refusal : Login → LogicPkt → Status → Frame
refusal l req status = record {
  op_code = op_binary;
  payload = marshal l.header (
      logic (record (new_from req.header) {
        header = record ((new_from req.header).header) { status = status };
      }));
}

module _ (routes : Routes) (l : Login) where
  -- Step 7, given what Forward answers.
  unfoldable pub after_forward : Bytes → ℕ → Outcome (Client × Bytes) → Accepted
  after_forward id seq (ok s) = record { written = []; sent = some s; seq = seq; result = ok id }
  after_forward id seq (err e) = refuse seq (err e)
  after_forward id seq panicked = refuse seq panicked

  -- The packet that goes to the login service.
  abbrev pub login_packet : LogicPkt → Token → Bytes → LogicPkt
  login_packet req tk id =
      Logic.write_body l.session (with_channel_id req id) (some (session_of l id tk))

  -- Step 6: the channel id, and the login on its way to the login service.
  admit : LogicPkt → Token → ℕ → Accepted
  admit req tk seq =
      let (id, seq') = generate_channel_id l.service_id tk.account seq in
      after_forward id seq' (forward l.header routes sn_login (some (login_packet req tk id)))

  -- Step 5, given what token.Parse returns.
  after_token : LogicPkt → ℕ → Outcome Token → Accepted
  after_token req seq (ok tk) = admit req tk seq
  after_token req seq (err e) = record {
    written = refusal l req Status.unauthorized ∷ [];
    sent = none;
    seq = seq;
    result = err e;
  }
  after_token req seq panicked = refuse seq panicked

  -- Step 4, given what ReadBody returns.
  after_body : LogicPkt → ℕ → Outcome LoginReq → Accepted
  after_body req seq (ok login) =
      after_token req seq (parse l.decoder l.now default_secret login.token)
  after_body req seq (err e) = refuse seq (err e)
  after_body req seq panicked = refuse seq panicked

  -- Steps 2 and 3, given what MustReadLogicPkt returns.
  after_packet : ℕ → Outcome (LogicPkt × Bytes) → Accepted
  after_packet seq (ok (req, rest)) =
      if bytes_eq req.command command_login_sign_in
      then after_body req seq (Logic.read_body l.login_req req)
      else record {
        written = refusal l req Status.invalid_command ∷ [];
        sent = none;
        seq = seq;
        result = err invalid_command;
      }
  after_packet seq (err e) = refuse seq (err e)
  after_packet seq panicked = refuse seq panicked

  -- (x *Handler) Accept(conn, timeout), given what conn.ReadFrame() returns
  unfoldable pub accept : Outcome Frame → ℕ → Accepted
  unfolding after_packet after_body after_token admit after_forward
  accept (ok f) seq = after_packet seq (must_read_logic_pkt l.header f.payload)
  accept (err e) seq = refuse seq (err e)
  accept panicked seq = refuse seq panicked

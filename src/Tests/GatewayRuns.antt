-- ===== src/Tests/GatewayRuns.antt =====
-- wxf/services/gateway/serv/handler.go
use wxf_im.Prelude.{ℕ, ◌≡◌, refl, ◌≢◌, none, some, [], ◌∷◌, arith, Bytes, lit, bytes_eq, ok}
use wxf_im.Prelude.Assoc
use wxf_im.Wire.Endian.{be_value, read_bytes, read_full, read_uint32}
use wxf_im.Wire.Seq.{initial, next, after_calls}
use wxf_im.Wire.Token.{Token, parse, valid}
use wxf_im.Wire.Pkt.Message.{Header, Codec, LoginReq, empty_header}
use wxf_im.Wire.Pkt.Logic
use wxf_im.Wire.Pkt.Logic.{LogicPkt, add_string_meta, service_name}
use wxf_im.Wire.Pkt.Packet.{logic, read, marshal, must_read_logic_pkt}
use wxf_im.Conn.{Frame, op_binary}
use wxf_im.Container.{key_service_state, state_adult, meta_dest_server}
use wxf_im.Container.Clients
use wxf_im.Container.Clients.{Client, Service}
use wxf_im.Container.Forward.{Routes, lookup, forward, forward_with_selector}
use wxf_im.Gateway.ChannelId.{channel_id, generate_channel_id}
use wxf_im.Gateway.Handler.{Login, accept, command_login_sign_in}
use wxf_im.Gateway.Handler.Accepting.{IsAdmitted, accept_sound, accepted_ids_distinct}
use wxf_im.Gateway.Handler.{sn_login, login_packet}
use native.Mathlib.Decide.{ℕ_discrete}
use wxf_im.Wire.Writer.{Writer}
use wxf_im.Wire.Pkt.Message.{InnerHandshakeReq}
use wxf_im.LogicServer.Handler as LogicHandler
use wxf_im.Tests.Codecs.{only}

abbrev signin : LogicPkt
signin = record { header = record empty_header { command = command_login_sign_in }; body = 1 ∷ [] }

-- Codecs that know one message.
abbrev header_codec : Codec Header
header_codec = record { marshal = λ h. some (5 ∷ []); unmarshal = λ bs. some signin.header }

abbrev login_req : LoginReq
login_req = record { token = lit "t"; isp = []; zone = []; tags = [] }

abbrev token : Token
token = record { account = lit "ann"; app = lit "im"; exp = 100 }

abbrev login_service : Service
login_service = record {
  service_id = lit "login1";
  service_name = lit "chat";
  meta = (key_service_state, state_adult) ∷ [];
}

abbrev login_client : Client
login_client = record { id = lit "login1"; name = lit "chat"; service = some login_service }

abbrev routes : Routes
routes = record {
  service_id = lit "gate1";
  srv_clients = (lit "chat", (lit "login1", login_client) ∷ []) ∷ [];
  selector = λ h ss. ok (lit "login1");
}

abbrev login : Login
login = record {
  service_id = lit "gate1";
  header = header_codec;
  login_req = record { marshal = λ m. some (1 ∷ []); unmarshal = λ bs. some login_req };
  session = record { marshal = λ m. some (2 ∷ []); unmarshal = λ bs. none };
  decoder = λ secret text. some token;
  now = 50;
  remote_addr = lit "10.0.0.7:4711";
}

abbrev request : Frame
request = record {
  op_code = op_binary;
  payload = 0xc3 ∷ 0x11 ∷ 0xa3 ∷ 0x65 ∷ 0 ∷ 0 ∷ 0 ∷ 1 ∷ 5 ∷ 0 ∷ 0 ∷ 0 ∷ 1 ∷ 1 ∷ [];
}

abbrev id_of : ℕ → Bytes
id_of n = channel_id (lit "gate1") (lit "ann") n

accept_runs : (accept routes login (ok request) 1).result ≡ ok (id_of 2)
unfolding accept must_read_logic_pkt read read_full read_bytes read_uint32 be_value Logic.decode
    Logic.read_body Logic.write_body parse valid forward forward_with_selector lookup
    Clients.services Clients.get Assoc.lookup bytes_eq generate_channel_id next
accept_runs = refl

accept_sound_example :
    IsAdmitted routes login request 1 (accept routes login (ok request) 1) (id_of 2)
accept_sound_example = accept_sound routes login request 1 (id_of 2) accept_runs

request_read : must_read_logic_pkt login.header request.payload ≡ ok (signin, [])
unfolding must_read_logic_pkt read read_full read_bytes read_uint32 be_value Logic.decode bytes_eq
request_read = refl

abbrev login_sent : Client × Bytes
login_sent = (
  login_client,
  marshal login.header (
      logic (
        add_string_meta (login_packet routes login signin token (id_of 2)) meta_dest_server
          routes.service_id)),
)

login_forwarded :
    forward login.header routes sn_login (
      some (
        login_packet routes login signin token
          (channel_id login.service_id token.account (next 1).0)))
    ≡ ok login_sent
unfolding forward forward_with_selector lookup Clients.services Clients.get Assoc.lookup bytes_eq
    Logic.write_body next
login_forwarded = refl

first_accept : (accept routes login (ok request) (after_calls 0 initial)).result ≡ ok (id_of 2)
unfolding after_calls
first_accept = accept_runs

sixth_accept : (accept routes login (ok request) (after_calls 5 initial)).result ≡ ok (id_of 7)
unfolding accept must_read_logic_pkt read read_full read_bytes read_uint32 be_value Logic.decode
    Logic.read_body Logic.write_body parse valid forward forward_with_selector lookup
    Clients.services Clients.get Assoc.lookup bytes_eq generate_channel_id next after_calls
sixth_accept = refl

accepted_ids_distinct_example : id_of 2 ≢ id_of 7
accepted_ids_distinct_example =
    accepted_ids_distinct routes routes login login request request 0 5 (id_of 2) (id_of 7)
      first_accept sixth_accept (omega arith) (omega arith)

InnerHandshakeReq-discrete : Discrete InnerHandshakeReq
InnerHandshakeReq-discrete = hlevel ℕ_discrete

abbrev handshake_codec : Codec InnerHandshakeReq
handshake_codec =
    only InnerHandshakeReq-discrete (record { service_id = lit "gate1" }) (10 ∷ 5 ∷ [])

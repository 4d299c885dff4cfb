-- ===== src/Examples/Mock.antt =====
-- wxf/examples/mock: a client that sends six messages and waits for as many answers, and a server
-- that answers each message.
pub mod Echo
use wxf_im.Prelude.{
  ℕ, zero, suc, Bool, true, false, not, ◌&&◌, ◌||◌, some, List, [], ◌∷◌, ◌++◌, ◌==◌, if◌then◌else◌,
  take, Bytes, lit, bytes_eq, decimal, Outcome, ok, err, panicked, ◌>>=◌, ◌>>◌, user_id_invalid,
  length,
}
use wxf_im.Wire.Writer.{Writer, Written}
use wxf_im.Conn.{Frame, op_binary}
use wxf_im.Conn.Tcp.{write_frame}
use wxf_im.Conn.Websocket.{WsFrame, Ws, WsClient}
use wxf_im.Client.Websocket.{new_ws_client, set_ws_dialer, ws_connect}
use wxf_im.Client.{Client, new_client, set_dialer, connect, send}
use wxf_im.Gateway.Dialer.{after_write}

-- The defaults of the flags of NewClientCmd and NewServerCmd.
pub record StartOptions : Type 0 where
  pub addr : Bytes
  pub protocol : Bytes

abbrev pub client_options : StartOptions
client_options = record { addr = lit "localhost:8000"; protocol = lit "ws" }

abbrev pub server_options : StartOptions
server_options = record { addr = lit ":8000"; protocol = lit "ws" }

-- strings.HasPrefix(text, prefix)
abbrev pub has_prefix : Bytes → Bytes → Bool
has_prefix text prefix = bytes_eq (take (length prefix) text) prefix

-- The address that runcli hands to ClientDemo.Start.
unfoldable pub client_address : StartOptions → Bytes
client_address opts =
    if bytes_eq opts.protocol (lit "ws") && not (has_prefix opts.addr (lit "ws:"))
    then lit "ws://" ++ opts.addr
    else opts.addr

-- (s *ServerHandler) Accept(conn, timeout), given what conn.ReadFrame() returns
abbrev pub user_of : Bytes → Outcome Bytes
user_of payload = if bytes_eq payload [] then err user_id_invalid else ok payload

unfoldable pub accept : Outcome Frame → Outcome Bytes
accept frame = do f ← frame; user_of f.payload

-- What (s *ServerHandler) Receive(agent, payload) pushes, with agent.ID()
unfoldable pub receive : Bytes → Bytes → Bytes
receive agent payload = ((agent ++ lit " receive ") ++ payload) ++ lit " from server "

-- The protocols of which there is a client and a server: with another the variable stays nil, and
-- its first method panics.
abbrev pub is_known : Bytes → Bool
is_known protocol = bytes_eq protocol (lit "ws") || bytes_eq protocol (lit "tcp")

-- (s *ServerDemo) Start(id, protocol, addr), given what srv.Start() returns: the code panics
-- after an error of it.
unfoldable pub start_server : Bytes → Outcome (Unit {0}) → Outcome (Unit {0})
start_server protocol started =
    if is_known protocol
    then elim started [ ok u ↦ ok tt | err e ↦ panicked | panicked ↦ panicked ]
    else panicked

-- (d *TcpDialer) DialAndHandShake(ctx), with ctx.Id, and what net.DialTimeout returns
unfoldable pub tcp_dial_and_hand_shake : Bytes → Outcome Writer → Outcome Writer
tcp_dial_and_hand_shake id dial = do conn ← dial; after_write (write_frame op_binary id conn)

-- (d *WebsocketDialer) DialAndHandShake(ctx), with the mask of the frame, and what ws.Dial and
-- wsutil.WriteClientBinary return
unfoldable pub ws_dial_and_hand_shake :
    Ws → Bytes → Bytes → Outcome (List WsFrame) → Outcome (Unit {0}) → Outcome (List WsFrame)
ws_dial_and_hand_shake ws mask id dial wrote = do
  conn ← dial
  wrote
  ok (conn ++ ws.client_message mask op_binary id ∷ [])

-- The messages that the client sends and the answers that it waits for.
abbrev pub count : ℕ
count = 6

-- fmt.Sprintf("hello_%d", i)
abbrev pub hello : ℕ → Bytes
hello i = lit "hello_" ++ decimal i

-- What follows a call of Send, given the rest of the loop.
abbrev pub after_send : Outcome (Unit {0}) × Client → (Client → Client) → Client
after_send (ok u, c) rest = rest c
after_send (err e, c) rest = c
after_send (panicked, c) rest = c

-- The sending goroutine, from round `i` on, with what SetWriteDeadline returns in each round.
unfoldable pub send_loop : ℕ → ℕ → (ℕ → Outcome (Unit {0})) → Client → Client
send_loop zero i deadline c = c
send_loop (suc rounds) i deadline c =
    after_send (send (deadline i) (hello i) c) (send_loop rounds (suc i) deadline)

-- The loop of Start over what Read returns, from `recv` answers on, of `wanted`: the messages that it logs, and
-- whether it has ended.
unfoldable pub receive_loop : ℕ → ℕ → List (Outcome Frame) → List Bytes × Bool
receive_loop wanted recv [] = ([], false)
receive_loop wanted recv (err e ∷ rest) = ([], true)
receive_loop wanted recv (panicked ∷ rest) = ([], true)
receive_loop wanted recv (ok f ∷ rest) =
    let is_answer = f.op_code == op_binary in
    let (logged, ended) = receive_loop wanted (if is_answer then suc recv else recv) rest in
    if not is_answer
    then (logged, ended)
    else if suc recv == wanted
    then (f.payload ∷ [], true)
    else (f.payload ∷ logged, ended)

-- (c *ClientDemo) Start(userID, "tcp", addr) up to its loops: what Connect returns, and the client.
unfoldable pub start_tcp : Bytes → Bool → Outcome Writer → Outcome (Unit {0}) × Client
start_tcp user_id parses dial =
    connect parses (do w ← tcp_dial_and_hand_shake user_id dial; ok (some w))
      (set_dialer new_client)

-- (c *ClientDemo) Start(userID, "ws", addr) up to its loops, likewise
unfoldable pub start_ws :
    Ws
    → Bytes
    → Bytes
    → Bool
    → Outcome (List WsFrame)
    → Outcome (Unit {0})
    → Outcome (Unit {0}) × WsClient
start_ws ws mask user_id parses dial wrote =
    ws_connect parses (do sent ← ws_dial_and_hand_shake ws mask user_id dial wrote; ok (some sent))
      (set_ws_dialer new_ws_client)

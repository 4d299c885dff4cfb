-- ===== src/Client.antt =====
-- wxf/tcp/client.go and wxf/websocket/client.go: the state machine of a client connection. The
-- network is what Dial, SetWriteDeadline and ReadFrame return.
pub mod Calls
pub mod Heartbeat
pub mod Websocket
use wxf_im.Prelude.{
  ℕ, ◌≡◌, Bool, true, false, not, Option, none, some, [], arith, ◌==◌, if◌then◌else◌, Bytes, Error,
  Outcome, ok, err, panicked, ◌>>=◌, external, client_connected, conn_nil, connection_nil,
  remote_closed,
}
use wxf_im.Wire.Writer.{Writer, Written}
use wxf_im.Conn.{Frame, op_binary, op_close}
use wxf_im.Conn.Tcp.{write_frame}

-- `state` is 0 or 1, `once` the sync.Once of Close; `has_dialer` says that the Dialer is not nil.
pub record Client : Type 0 where
  pub has_dialer : Bool
  pub conn : Option Writer
  pub state : ℕ
  pub once : Bool

-- NewClient: a Dialer is not given.
abbrev pub new_client : Client
new_client = record { has_dialer = false; conn = none; state = 0; once = false }

-- SetDialer(dialer), for a dialer that is not nil
abbrev pub set_dialer : Client → Client
set_dialer c = record c { has_dialer = true }

-- atomic.CompareAndSwapInt32(&c.state, 1, 0)
abbrev pub back_to_zero : ℕ → ℕ
back_to_zero n = if n == 1 then 0 else n

-- What follows the dial; `ok none` is a nil connection without an error.
dialled : Outcome (Option Writer) → Client → Outcome (Unit {0}) × Client
dialled (err e) c = (err e, record c { state = back_to_zero c.state })
dialled (ok none) c = (err conn_nil, c)
dialled (ok (some w)) c = (ok tt, record c { conn = some w })
dialled panicked c = (panicked, c)

-- The call of DialAndHandShake, which panics on a nil Dialer, and what follows it.
dial_and_go_on : Outcome (Option Writer) → Client → Outcome (Unit {0}) × Client
unfolding dialled
dial_and_go_on dial c = if c.has_dialer then dialled dial c else (panicked, c)

-- (c *Client) Connect(addr), where url.Parse accepts the address or not
unfoldable pub connect : Bool → Outcome (Option Writer) → Client → Outcome (Unit {0}) × Client
unfolding dial_and_go_on
connect parses dial c =
    if not parses
    then (err (external 2), c)
    else if c.state == 0
    then dial_and_go_on dial (record c { state = 1 })
    else (err client_connected, c)

after_write : Written → Client → Outcome (Unit {0}) × Client
after_write (r, w) c = (r, record c { conn = some w })

-- (c *Client) Send(bytes) of wxf/tcp, given what SetWriteDeadline returns
unfoldable pub send : Outcome (Unit {0}) → Bytes → Client → Outcome (Unit {0}) × Client
unfolding after_write
send deadline bytes c = if c.state == 0 then (err connection_nil, c) else elim c.conn [
  | none ↦ (panicked, c)
  | some w ↦ elim deadline [
    | ok u ↦ after_write (write_frame op_binary bytes w) c
    | err e ↦ (err e, c)
    | panicked ↦ (panicked, c)
  ]
]

-- (c *Client) Read(), given what ReadFrame returns
unfoldable pub read : Outcome Frame → Client → Outcome Frame
read frame c = elim c.conn [
  | none ↦ err connection_nil
  | some w ↦ do f ← frame; if f.op_code == op_close then err remote_closed else ok f
]

-- The connection after Close: it takes nothing more.
abbrev pub shut : Writer → Writer
shut w = record w { room = some 0 }

-- c.conn.WriteFrame(OpClose, nil), c.conn.Close() and the CompareAndSwap; errors are dropped.
hang_up : Writer → Client → Client
hang_up w c = record c {
  conn = some (shut (write_frame op_close [] w).1);
  state = back_to_zero c.state;
}

-- (c *Client) Close() of wxf/tcp
unfoldable pub tcp_close : Client → Client
unfolding hang_up
tcp_close c = if c.once then c else elim c.conn [
  | none ↦ record c { once = true }
  | some w ↦ hang_up w (record c { once = true })
]

-- (c *Client) Close() of wxf/websocket: only the test for a nil connection stands in the Once, and
-- its return leaves only that function. The frame goes out through the WebSocket library.
unfoldable pub ws_close : Client → Outcome Client
ws_close c = elim c.conn [
  | none ↦ panicked
  | some w ↦ ok (record c { conn = some (shut w); state = back_to_zero c.state; once = true })
]

-- Connect on a client that is connected fails and changes nothing; a dial that fails leaves the
-- client as unconnected as before, and a successful one leaves it connected; either has no effect
-- where the address does not parse. The client has a dialer.
pub connect_lem :
    (c : Client) (w : Writer) (e : Error)
    → c.has_dialer ≡ true
    → (connect true (err e) c ≡ (if c.state == 0 then (err e, c) else (err client_connected, c)))
      × (connect true (ok (some w)) c ≡ (
          if c.state == 0
          then (ok tt, record c { conn = some w; state = 1 })
          else (err client_connected, c)))
      × (connect false (err e) c ≡ connect false (ok (some w)) c)
      × ((connect false (err e) c).1 ≡ c)
unfolding connect
connect_lem c w e dialer = ground arith

-- Where the dialer of a client returned a nil connection without an error, and the client had none,
-- Connect returns an error and yet leaves the client connected: the next Send panics, and a later
-- Connect is refused.
pub nil_dial-stuck :
    (c : Client) (dial : Outcome (Option Writer)) (deadline : Outcome (Unit {0})) (bytes : Bytes)
    → c.has_dialer ≡ true
    → c.state ≡ 0
    → c.conn ≡ none
    → let c' = (connect true (ok none) c).1 in
      ((connect true (ok none) c).0 ≡ err conn_nil)
      × ((send deadline bytes c').0 ≡ panicked)
      × ((connect true dial c').0 ≡ err client_connected)
unfolding connect send
nil_dial-stuck c dial deadline bytes dialer idle no_conn = ground arith

-- A TCP client with a dialer that was closed for the first time and connected again cannot be closed: Close
-- changes nothing any more, and the client keeps its new connection and stays connected.
pub reconnected_cannot_close :
    (c : Client) (w w' : Writer)
    → c.has_dialer ≡ true
    → c.conn ≡ some w
    → c.state ≡ 1
    → c.once ≡ false
    → let again = connect true (ok (some w')) (tcp_close c) in
      (again.0 ≡ ok tt)
      × (tcp_close again.1 ≡ again.1)
      × (again.1.conn ≡ some w')
      × (again.1.state ≡ 1)
unfolding connect tcp_close
reconnected_cannot_close c w w' dialer up on fresh = ground arith

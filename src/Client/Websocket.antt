-- ===== src/Client/Websocket.antt =====
-- Connect, Close and heartbeatLoop of wxf/websocket/client.go, with the frames that a client writes.
use wxf_im.Prelude.{
  Bool, true, false, not, Option, none, some, List, [], ◌∷◌, ◌++◌, ◌==◌, if◌then◌else◌, Bytes,
  Outcome, ok, err, panicked, external, conn_nil, client_connected,
}
use wxf_im.Conn.{op_close}
use wxf_im.Conn.Websocket.{WsFrame, Ws, WsClient, client_ping}
use wxf_im.Client.{back_to_zero}

-- NewClient: a Dialer is not given.
abbrev pub new_ws_client : WsClient
new_ws_client = record { has_dialer = false; conn = none; state = 0 }

-- SetDialer(dialer), for a dialer that is not nil
abbrev pub set_ws_dialer : WsClient → WsClient
set_ws_dialer c = record c { has_dialer = true }

-- What follows the dial; `ok none` is a nil connection without an error.
abbrev pub ws_dialled : Outcome (Option (List WsFrame)) → WsClient → Outcome (Unit {0}) × WsClient
ws_dialled (err e) c = (err e, record c { state = back_to_zero c.state })
ws_dialled (ok none) c = (err conn_nil, c)
ws_dialled (ok (some sent)) c = (ok tt, record c { conn = some sent })
ws_dialled panicked c = (panicked, c)

-- The call of DialAndHandShake, which panics on a nil Dialer, and what follows it.
abbrev pub ws_dial_and_go_on :
    Outcome (Option (List WsFrame)) → WsClient → Outcome (Unit {0}) × WsClient
ws_dial_and_go_on dial c = if c.has_dialer then ws_dialled dial c else (panicked, c)

-- (c *Client) Connect(addr), where url.Parse accepts the address or not, and the dialer returns a
-- connection with what its handshake has written
unfoldable pub ws_connect :
    Bool → Outcome (Option (List WsFrame)) → WsClient → Outcome (Unit {0}) × WsClient
ws_connect parses dial c =
    if not parses
    then (err (external 2), c)
    else if c.state == 0
    then ws_dial_and_go_on dial (record c { state = 1 })
    else (err client_connected, c)

-- What wsutil.WriteClientMessage leaves on the connection: its frame, where it returns nil.
abbrev pub after_close_frame : Outcome (Unit {0}) → WsFrame → List WsFrame → List WsFrame
after_close_frame (ok u) f sent = sent ++ f ∷ []
after_close_frame _ f sent = sent

-- (c *Client) Close(), with the mask that the package picks for the close frame and what its
-- write returns, which is dropped: a nil connection only ends the function inside the Once.
unfoldable pub client_close : Ws → Bytes → Outcome (Unit {0}) → WsClient → Outcome WsClient
client_close ws mask result c = elim c.conn [
  | none ↦ panicked
  | some sent ↦ ok (record c {
    conn = some (after_close_frame result (ws.client_message mask op_close []) sent);
    state = back_to_zero c.state;
  })
]

-- What a tick of the heartbeat meets: the mask, and what SetWriteDeadline and the write return.
pub record Tick : Type 0 where
  pub mask : Bytes
  pub deadline : Outcome (Unit {0})
  pub result : Outcome (Unit {0})

-- What follows a ping, given the rest of the loop.
abbrev pub ws_goes_on :
    Outcome (Unit {0}) × WsClient
    → (WsClient → Outcome (Unit {0}) × WsClient)
    → Outcome (Unit {0}) × WsClient
ws_goes_on (ok u, c) rest = rest c
ws_goes_on (err e, c) rest = (err e, c)
ws_goes_on (panicked, c) rest = (panicked, c)

-- heartbeatLoop() over the ticks so far: `ok` means that it waits for the next one.
unfoldable pub ws_heartbeat : Ws → List Tick → WsClient → Outcome (Unit {0}) × WsClient
ws_heartbeat ws [] c = (ok tt, c)
ws_heartbeat ws (t ∷ ts) c =
    ws_goes_on (client_ping ws t.mask t.deadline t.result c) (ws_heartbeat ws ts)

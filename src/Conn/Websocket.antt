-- ===== src/Conn/Websocket.antt =====
-- wxf/websocket/connection.go, and Send and Read of wxf/websocket/client.go. The package
-- github.com/gobwas/ws is a parameter: its frames, what it writes, and what its ReadFrame returns.
use wxf_im.Prelude.{
  ℕ, ◌≡◌, Bool, true, false, Option, none, some, List, [], ◌∷◌, ◌++◌, ◌==◌, if◌then◌else◌, Bytes,
  Outcome, ok, err, panicked, ◌>>=◌, connection_nil, remote_closed,
}
use wxf_im.Conn.{Frame, op_binary, op_close, op_ping}

-- ws.Frame, with the fields of its header that the code reads; the mask has four bytes.
pub record WsFrame : Type 0 where
  pub op_code : ℕ
  pub masked : Bool
  pub mask : Bytes
  pub payload : Bytes

-- The functions of the package that the code calls. `new_frame` and `client_message` are the
-- frames that ws.WriteFrame(ws.NewFrame(…)) and wsutil.WriteClientMessage put on a connection,
-- the latter with the mask that it picks.
pub record Ws : Type 0 where
  pub cipher : Bytes → Bytes → Bytes
  pub new_frame : ℕ → Bytes → WsFrame
  pub client_message : Bytes → ℕ → Bytes → WsFrame

-- What the package documents: Cipher applied twice with one mask gives the payload back, frames of
-- NewFrame are not masked, and messages of a client are masked by Cipher.
pub record IsDocumented (ws : Ws) : Type 0 where
  pub twice : (p mask : Bytes) → ws.cipher (ws.cipher p mask) mask ≡ p
  pub plain :
      (code : ℕ) (p : Bytes)
      → (ws.new_frame code p).masked ≡ false
        × (ws.new_frame code p).op_code ≡ code
        × (ws.new_frame code p).payload ≡ p
  pub hidden :
      (mask : Bytes) (code : ℕ) (p : Bytes)
      → ws.client_message mask code p
        ≡ record { op_code = code; masked = true; mask = mask; payload = ws.cipher p mask }

module _ (ws : Ws) where
  -- (f *Frame) GetPayload(), and the frame after it
  unfoldable pub get_payload : WsFrame → Bytes × WsFrame
  get_payload f =
      let payload = if f.masked then ws.cipher f.payload f.mask else f.payload in
      (payload, record f { masked = false; payload = payload })

  -- What the interface wxf.Frame shows of a frame: GetOpCode and GetPayload.
  abbrev pub as_frame : WsFrame → Frame
  as_frame f = record { op_code = f.op_code; payload = (get_payload f).0 }

  -- (wc *WsConn) ReadFrame(), given what ws.ReadFrame returns
  unfoldable pub read_frame : Outcome WsFrame → Outcome Frame
  read_frame raw = do f ← raw; ok (as_frame f)

  -- (wc *WsConn) WriteFrame(code, payload): the frame that goes out, and the result of ws.WriteFrame
  unfoldable pub write_frame : ℕ → Bytes → Outcome (Unit {0}) → WsFrame × Outcome (Unit {0})
  write_frame code payload result = (ws.new_frame code payload, result)

-- The fields of websocket.Client that its methods change; `conn` holds the frames written to it, and
-- `has_dialer` says that the Dialer is not nil.
pub record WsClient : Type 0 where
  pub has_dialer : Bool
  pub conn : Option (List WsFrame)
  pub state : ℕ

-- SetWriteDeadline and wsutil.WriteClientMessage, by what they return: the latter's frame goes
-- out where it returns nil.
client_write :
    Ws
    → Outcome (Unit {0})
    → Outcome (Unit {0})
    → WsFrame
    → List WsFrame
    → WsClient
    → Outcome (Unit {0}) × WsClient
client_write ws (ok u) (ok v) f sent c = (ok tt, record c { conn = some (sent ++ f ∷ []) })
client_write ws (ok u) (err e) f sent c = (err e, c)
client_write ws (ok u) panicked f sent c = (panicked, c)
client_write ws (err e) result f sent c = (err e, c)
client_write ws panicked result f sent c = (panicked, c)

on_conn :
    Ws
    → Outcome (Unit {0})
    → Outcome (Unit {0})
    → WsFrame
    → WsClient
    → Outcome (Unit {0}) × WsClient
unfolding client_write
on_conn ws deadline result f c = elim c.conn [
  | none ↦ (panicked, c)
  | some sent ↦ client_write ws deadline result f sent c
]

-- (c *Client) Send(payload), with the mask that the package picks
unfoldable pub client_send :
    Ws
    → Bytes
    → Outcome (Unit {0})
    → Outcome (Unit {0})
    → Bytes
    → WsClient
    → Outcome (Unit {0}) × WsClient
unfolding on_conn
client_send ws mask deadline result payload c =
    if c.state == 0
    then (err connection_nil, c)
    else on_conn ws deadline result (ws.client_message mask op_binary payload) c

-- (c *Client) ping()
unfoldable pub client_ping :
    Ws → Bytes → Outcome (Unit {0}) → Outcome (Unit {0}) → WsClient → Outcome (Unit {0}) × WsClient
unfolding on_conn
client_ping ws mask deadline result c =
    on_conn ws deadline result (ws.client_message mask op_ping []) c

-- (c *Client) Read(), given what ws.ReadFrame returns
unfoldable pub client_read : Ws → Outcome WsFrame → WsClient → Outcome Frame
client_read ws raw c = elim c.conn [
  | none ↦ err connection_nil
  | some sent ↦ do f ← raw; if f.op_code == op_close then err remote_closed else ok (as_frame ws f)
]

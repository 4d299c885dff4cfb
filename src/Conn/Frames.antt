-- ===== src/Conn/Frames.antt =====
-- The interface Frame of wxf/server.go, and its implementations in wxf/tcp/connection.go and
-- wxf/websocket/connection.go. A method that changes the frame returns the frame after it.
use wxf_im.Prelude.{ℕ, ◌≡◌, refl, ap, true, if◌then◌else◌, Bytes}
use wxf_im.Conn.{Frame}
use wxf_im.Conn.Websocket.{Ws, WsFrame, get_payload}

pub record FrameMethods (F : Type 0) : Type 0 where
  pub set_op_code : ℕ → F → F
  pub get_op_code : F → ℕ
  pub set_payload : Bytes → F → F
  pub get_payload : F → Bytes × F

-- What the users of a frame rely on: the op code and the payload do not disturb one another, and
-- GetPayload, which may change the frame, gives the same payload a second time.
pub record KeepsFields {F : Type 0} (m : FrameMethods F) : Type 0 where
  pub op_code_set : (code : ℕ) (f : F) → m.get_op_code (m.set_op_code code f) ≡ code
  pub op_code_kept : (p : Bytes) (f : F) → m.get_op_code (m.set_payload p f) ≡ m.get_op_code f
  pub op_code_read : (f : F) → m.get_op_code (m.get_payload f).1 ≡ m.get_op_code f
  pub payload_kept :
      (code : ℕ) (f : F) → (m.get_payload (m.set_op_code code f)).0 ≡ (m.get_payload f).0
  pub payload_read : (f : F) → (m.get_payload (m.get_payload f).1).0 ≡ (m.get_payload f).0

-- *tcp.Frame
abbrev pub tcp_methods : FrameMethods Frame
tcp_methods = record {
  set_op_code = λ code f. record f { op_code = code };
  get_op_code = λ f. f.op_code;
  set_payload = λ p f. record f { payload = p };
  get_payload = λ f. (f.payload, f);
}

-- *websocket.Frame
abbrev pub ws_methods : Ws → FrameMethods WsFrame
ws_methods ws = record {
  set_op_code = λ code f. record f { op_code = code };
  get_op_code = λ f. f.op_code;
  set_payload = λ p f. record f { payload = p };
  get_payload = get_payload ws;
}

-- Frames of both kinds keep their fields, and a frame of TCP gives back the payload that it is given.
tcp_methods-KeepsFields : KeepsFields tcp_methods
tcp_methods-KeepsFields = record {
  op_code_set = λ code f. refl;
  op_code_kept = λ p f. refl;
  op_code_read = λ f. refl;
  payload_kept = λ code f. refl;
  payload_read = λ f. refl;
}

module _ (ws : Ws) where
  ws_methods-KeepsFields : KeepsFields (ws_methods ws)
  unfolding get_payload
  ws_methods-KeepsFields = record {
    op_code_set = λ code f. refl;
    op_code_kept = λ p f. refl;
    op_code_read = λ f. refl;
    payload_kept = λ code f. refl;
    payload_read = λ f. refl;
  }

  -- SetPayload leaves the mask on: a payload that is put into a masked frame comes back ciphered.
  get_payload-set_masked :
      (p : Bytes) (f : WsFrame)
      → f.masked ≡ true
      → (get_payload ws ((ws_methods ws).set_payload p f)).0 ≡ ws.cipher p f.mask
  unfolding get_payload
  get_payload-set_masked p f masked = ap (λ b. if b then ws.cipher p f.mask else p) masked

  -- Once the frame has been read its mask is gone, and the payload comes back as it is.
  get_payload-set_read :
      (p : Bytes) (f : WsFrame)
      → (get_payload ws ((ws_methods ws).set_payload p (get_payload ws f).1)).0 ≡ p
  unfolding get_payload
  get_payload-set_read p f = refl

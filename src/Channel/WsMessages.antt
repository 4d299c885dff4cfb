-- ===== src/Channel/WsMessages.antt =====
-- From Send of wxf/websocket/client.go to Readloop of wxf/channel.go, over
-- wxf/websocket/connection.go.
use wxf_im.Prelude.{
  ℕ, ◌≡◌, refl, sym, ap, ◌∙◌, true, false, Option, none, some, List, [], ◌∷◌, ◌++◌, map, ◌==◌,
  length, keep, All, Bytes, Outcome, ok, remote_closed,
}
use mathlib.Core.List.{append_assoc, append-nil, map-append}
use wxf_im.Conn.{Frame, op_binary, op_close}
use wxf_im.Conn.Websocket.{
  WsFrame, Ws, IsDocumented, get_payload, as_frame, WsClient, client_send, read_frame,
}
use wxf_im.Client.Websocket.{new_ws_client, set_ws_dialer, ws_connect, client_close}
use wxf_im.Channel.ReadLoop.{readloop, messages, is_message, is_open, all_ok, readloop-frames}

-- GetPayload gives the same payload however often it is called, and leaves the frame as it is
-- from the second call on.
pub get_payload_twice :
    (ws : Ws) (f : WsFrame)
    → ((get_payload ws (get_payload ws f).1).0 ≡ (get_payload ws f).0)
      × ((get_payload ws (get_payload ws f).1).1 ≡ (get_payload ws f).1)
unfolding get_payload
get_payload_twice ws f = (refl, refl)

-- The messages of some calls of Send, with the masks that the package picked.
abbrev pub sent_frames : Ws → List (Bytes × Bytes) → List WsFrame
sent_frames ws sent = map (λ s. ws.client_message s.0 op_binary s.1) sent

-- What Send leaves on the connection, call by call.
unfoldable pub sends : Ws → List (Bytes × Bytes) → WsClient → WsClient
sends ws [] c = c
sends ws ((mask, p) ∷ more) c = sends ws more (client_send ws mask (ok tt) (ok tt) p c).1

client_send_lem :
    (ws : Ws) (mask p : Bytes) (c : WsClient) (out : List WsFrame)
    → (c.state == 0) ≡ false
    → c.conn ≡ some out
    → (client_send ws mask (ok tt) (ok tt) p c).1
      ≡ record c { conn = some (out ++ ws.client_message mask op_binary p ∷ []) }
unfolding client_send
client_send_lem ws mask p c out busy up = rw (busy, up) refl

sends_lem :
    (ws : Ws) (sent : List (Bytes × Bytes)) (c : WsClient) (out : List WsFrame)
    → (c.state == 0) ≡ false
    → c.conn ≡ some out
    → sends ws sent c ≡ record c { conn = some (out ++ sent_frames ws sent) }
unfolding sends
sends_lem ws [] c out busy up =
    ap (λ (o : Option (List WsFrame)). record c { conn = o }) (up ∙ ap some (sym (append-nil out)))
sends_lem ws ((mask, p) ∷ more) c out busy up =
    ap (sends ws more) (client_send_lem ws mask p c out busy up)
    ∙ sends_lem ws more (record c { conn = some (out ++ ws.client_message mask op_binary p ∷ []) })
        _ busy refl
    ∙ ap (λ (fs : List WsFrame). record c { conn = some fs })
        (append_assoc out (ws.client_message mask op_binary p ∷ []) (sent_frames ws more))

-- The frames that a client has written.
abbrev pub frames_of : WsClient → List WsFrame
frames_of c = elim c.conn [ none ↦ [] | some out ↦ out ]

-- What ReadFrame of the server returns for frames that arrive.
abbrev pub received : Ws → List WsFrame → List (Outcome Frame)
received ws frames = map (λ f. read_frame ws (ok f)) frames

module _ (ws : Ws) (doc : IsDocumented ws) where
  -- A frame of a client, as the server sees it.
  pub as_frame-client_message :
      (mask : Bytes) (code : ℕ) (p : Bytes)
      → as_frame ws (ws.client_message mask code p) ≡ record { op_code = code; payload = p }
  unfolding get_payload
  as_frame-client_message mask code p = rw (doc.hidden mask code p, doc.twice p mask)

  pub as_frame-new_frame :
      (code : ℕ) (p : Bytes)
      → as_frame ws (ws.new_frame code p) ≡ record { op_code = code; payload = p }
  unfolding get_payload
  as_frame-new_frame code p = let (plain, same, whole) = doc.plain code p in rw (plain, same, whole)

  -- A binary frame with a payload, as the server sees it.
  binary : Bytes × Bytes → Frame
  binary s = record { op_code = op_binary; payload = s.1 }

  received-sent_frames :
      (sent : List (Bytes × Bytes)) → received ws (sent_frames ws sent) ≡ all_ok (map binary sent)
  unfolding read_frame binary
  received-sent_frames [] = refl
  received-sent_frames ((mask, p) ∷ sent) =
      rw (as_frame-client_message mask op_binary p, received-sent_frames sent)

  binary-is_open : (sent : List (Bytes × Bytes)) → All (λ f. is_open f ≡ true) (map binary sent)
  unfolding binary
  binary-is_open [] = tt
  binary-is_open (s ∷ sent) = (refl, binary-is_open sent)

  kept_payloads :
      (sent : List (Bytes × Bytes))
      → All (λ s. (length s.1 == 0) ≡ false) sent
      → map (λ f. f.payload) (keep is_message (map binary sent)) ≡ map (λ s. s.1) sent
  unfolding binary
  kept_payloads [] some_bytes = refl
  kept_payloads (s ∷ sent) some_bytes =
      rw (some_bytes.0) (ap (◌∷◌ s.1) (kept_payloads sent some_bytes.1))

  -- The frames of a session that has sent its messages and closes the connection.
  session_frames :
      (sent : List (Bytes × Bytes)) (mask : Bytes)
      → received ws (sent_frames ws sent ++ ws.client_message mask op_close [] ∷ [])
        ≡ all_ok (map binary sent) ++ ok (record { op_code = op_close; payload = [] }) ∷ []
  unfolding read_frame
  session_frames sent mask =
      map-append (λ f. read_frame ws (ok f)) (sent_frames ws sent)
        (ws.client_message mask op_close [] ∷ [])
      ∙ rw (received-sent_frames sent, as_frame-client_message mask op_close []) refl

  -- A WebSocket client that gets a dialer, connects, hands non-empty payloads to Send and is closed: where the
  -- package's calls succeed, Readloop of the server gets these payloads unmasked, each once and
  -- in their order, whatever masks were picked, and ends at the close frame; the client may
  -- connect again.
  pub ws_session :
      (sent : List (Bytes × Bytes)) (mask : Bytes)
      → All (λ s. (length s.1 == 0) ≡ false) sent
      → let c = sends ws sent (ws_connect true (ok (some [])) (set_ws_dialer new_ws_client)).1 in
        (d : WsClient) × (client_close ws mask (ok tt) c ≡ ok d)
        × (messages (readloop (received ws (frames_of d))).0 ≡ map (λ s. s.1) sent)
        × ((readloop (received ws (frames_of d))).1 ≡ some remote_closed)
        × (d.state ≡ 0)
  unfolding ws_connect client_close
  ws_session sent mask some_bytes =
      let up : WsClient = record { has_dialer = true; conn = some []; state = 1 } in
      let close : Frame = record { op_code = op_close; payload = [] } in
      let d : WsClient = record {
        has_dialer = true;
        conn = some (sent_frames ws sent ++ ws.client_message mask op_close [] ∷ []);
        state = 0;
      } in
      let (m, p, e) = readloop-frames (map binary sent) close [] (binary-is_open sent) refl in
      (
        d,
        rw (sends_lem ws sent up [] refl refl) refl,
        rw (session_frames sent mask) (m ∙ kept_payloads sent some_bytes),
        rw (session_frames sent mask) e,
        refl,
      )

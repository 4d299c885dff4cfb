-- ===== src/Channel/TcpMessages.antt =====
-- From Send of wxf/tcp/client.go to Readloop of wxf/channel.go, over wxf/tcp/connection.go.
use wxf_im.Prelude.{
  ℕ, ◌^◌, ◌<◌, ◌≡◌, refl, sym, ap, ◌∙◌, Bool, true, false, Option, none, some, List, [], ◌∷◌, ◌++◌,
  map, arith, ◌==◌, length, keep, All, Bytes, Error, Outcome, ok, err, remote_closed,
}
use mathlib.Core.List.{append-nil, append_assoc}
use wxf_im.Wire.Writer.{buffer, write-buffer}
use wxf_im.Conn.{Frame, op_binary, op_close}
use wxf_im.Conn.Tcp.{read_frames, write_frame}
use wxf_im.Conn.Tcp.RoundTrip.{Fits, frame_bytes, stream, write_frame_lem, read_frames-stream}
use wxf_im.Client.{Client, new_client, set_dialer, connect, send, tcp_close}
use wxf_im.Channel.ReadLoop.{readloop, messages, is_message, is_open, all_ok, readloop-frames}

-- A payload in its frame, and the frame of Close.
abbrev pub binary : Bytes → Frame
binary p = record { op_code = op_binary; payload = p }

abbrev pub farewell : Frame
farewell = record { op_code = op_close; payload = [] }

-- Calls of Send, one after the other.
unfoldable pub tcp_sends : List Bytes → Client → Client
tcp_sends [] c = c
tcp_sends (p ∷ ps) c = tcp_sends ps (send (ok tt) p c).1

-- The bytes that a client has written.
abbrev pub bytes_out : Client → Bytes
bytes_out c = elim c.conn [ none ↦ [] | some w ↦ w.out ]

-- What ReadFrame of the server returns, call by call, for the bytes that arrive.
abbrev pub arriving : List Frame × Option Error → List (Outcome Frame)
arriving (fs, none) = all_ok fs
arriving (fs, some e) = all_ok fs ++ err e ∷ []

pub write_frame-buffer :
    (f : Frame) (out : Bytes)
    → f.op_code < 2 ^ 8
    → write_frame f.op_code f.payload (buffer out) ≡ (ok tt, buffer (out ++ frame_bytes f))
write_frame-buffer f out byte =
    write_frame_lem f (buffer out) byte ∙ write-buffer (frame_bytes f) out

send-buffer :
    (p out : Bytes) (once : Bool)
    → (send
        (ok tt)
        p
        (record { has_dialer = true; conn = some (buffer out); state = 1; once = once })).1
      ≡ record {
        has_dialer = true;
        conn = some (buffer (out ++ frame_bytes (binary p)));
        state = 1;
        once = once;
      }
unfolding send
send-buffer p out once = rw (write_frame-buffer (binary p) out (omega arith)) refl

tcp_sends-buffer :
    (ps : List Bytes) (out : Bytes) (once : Bool)
    → tcp_sends ps (record { has_dialer = true; conn = some (buffer out); state = 1; once = once })
      ≡ record {
        has_dialer = true;
        conn = some (buffer (out ++ stream (map binary ps)));
        state = 1;
        once = once;
      }
unfolding tcp_sends
tcp_sends-buffer [] out once =
    ap (λ o. record { has_dialer = true; conn = some (buffer o); state = 1; once = once })
      (sym (append-nil out))
tcp_sends-buffer (p ∷ ps) out once =
    ap (tcp_sends ps) (send-buffer p out once)
    ∙ tcp_sends-buffer ps (out ++ frame_bytes (binary p)) once
    ∙ ap (λ o. record { has_dialer = true; conn = some (buffer o); state = 1; once = once })
        (append_assoc out (frame_bytes (binary p)) (stream (map binary ps)))

pub stream-farewell :
    (fs : List Frame) → stream fs ++ frame_bytes farewell ≡ stream (fs ++ farewell ∷ [])
stream-farewell [] = sym (append-nil (frame_bytes farewell))
stream-farewell (f ∷ fs) =
    append_assoc (frame_bytes f) (stream fs) (frame_bytes farewell)
    ∙ ap (◌++◌ (frame_bytes f)) (stream-farewell fs)

pub close-buffer :
    (out : Bytes)
    → let d =
        tcp_close
          (record { has_dialer = true; conn = some (buffer out); state = 1; once = false }) in
      (bytes_out d ≡ out ++ frame_bytes farewell) × (d.state ≡ 0)
unfolding tcp_close
close-buffer out = rw (write_frame-buffer farewell out (omega arith)) (refl, refl)

-- The bytes and the state of a client that has sent payloads and is closed.
closed_client :
    (ps : List Bytes)
    → let d =
        tcp_close (tcp_sends ps (connect true (ok (some (buffer []))) (set_dialer new_client)).1) in
      (bytes_out d ≡ stream (map binary ps ++ farewell ∷ [])) × (d.state ≡ 0)
unfolding connect
closed_client ps =
    let sent = tcp_sends-buffer ps [] false in
    let (out, idle) = close-buffer (stream (map binary ps)) in
    (
      ap (λ c. bytes_out (tcp_close c)) sent ∙ out ∙ stream-farewell (map binary ps),
      ap (λ c. (tcp_close c).state) sent ∙ idle,
    )

pub binary-is_open : (ps : List Bytes) → All (λ f. is_open f ≡ true) (map binary ps)
binary-is_open [] = tt
binary-is_open (p ∷ ps) = (refl, binary-is_open ps)

pub kept_payloads :
    (ps : List Bytes)
    → All (λ p. (length p == 0) ≡ false) ps
    → map (λ f. f.payload) (keep is_message (map binary ps)) ≡ ps
kept_payloads [] some_bytes = refl
kept_payloads (p ∷ ps) some_bytes = rw (some_bytes.0) (ap (◌∷◌ p) (kept_payloads ps some_bytes.1))

pub all_ok-append :
    (fs : List Frame) (f : Frame) (rest : List (Outcome Frame))
    → all_ok (fs ++ f ∷ []) ++ rest ≡ all_ok fs ++ ok f ∷ rest
all_ok-append [] f rest = refl
all_ok-append (g ∷ fs) f rest = ap (◌∷◌ (ok g)) (all_ok-append fs f rest)

-- A TCP client that gets a dialer, connects, hands non-empty payloads to Send and is closed, over a connection
-- that takes everything: Readloop of the server gets these payloads, each once and in their
-- order, and ends at the close frame; the client may connect again. Each payload is shorter than
-- 2^32 bytes, and there is more fuel than bytes.
pub tcp_session :
    (ps : List Bytes) (fuel : ℕ)
    → All (λ p. (length p == 0) ≡ false) ps
    → All Fits (map binary ps ++ farewell ∷ [])
    → length (stream (map binary ps ++ farewell ∷ [])) < fuel
    → let d =
        tcp_close (tcp_sends ps (connect true (ok (some (buffer []))) (set_dialer new_client)).1) in
      let r = readloop (arriving (read_frames fuel (bytes_out d))) in
      (messages r.0 ≡ ps) × (r.1 ≡ some remote_closed) × (d.state ≡ 0)
tcp_session ps fuel some_bytes fits enough =
    let (out, idle) = closed_client ps in
    let read =
      ap (read_frames fuel) out
      ∙ read_frames-stream (map binary ps ++ farewell ∷ []) fuel fits enough in
    let frames = ap arriving read ∙ all_ok-append (map binary ps) farewell (err Error.eof ∷ []) in
    let (m, p, e) =
      readloop-frames (map binary ps) farewell (err Error.eof ∷ []) (binary-is_open ps) refl in
    (
      ap (λ fs. messages (readloop fs).0) frames ∙ m ∙ kept_payloads ps some_bytes,
      ap (λ fs. (readloop fs).1) frames ∙ e,
      idle,
    )

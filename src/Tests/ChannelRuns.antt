-- ===== src/Tests/ChannelRuns.antt =====
-- wxf/event.go, wxf/channel.go and wxf/tcp/connection.go
use wxf_im.Prelude.{
  ◌++◌, ◌≡◌, refl, false, some, List, [], ◌∷◌, arith, Error, ok, remote_closed, true, Bytes,
}
use wxf_im.Wire.Writer.{buffer}
use wxf_im.Conn.{Frame, op_binary, op_ping, op_close}
use wxf_im.Conn.Tcp.{read_frames}
use wxf_im.Channel.Event.{new_event}
use wxf_im.Channel.WriteLoop.{Chan, Step, waiting, pushes, writes, run}
use wxf_im.Channel.ReadLoop.{readloop, messages, pongs, readloop-frames}
use wxf_im.Channel.WriteLoop.Draining.{IsReady, run-IsReady}
use wxf_im.Conn.Websocket.{WsClient}
use wxf_im.Tests.Sockets.{ws, ws-IsDocumented}
use wxf_im.Client.Websocket.{new_ws_client, set_ws_dialer, ws_connect, client_close}
use wxf_im.Channel.WsMessages.{sends, frames_of, received, ws_session}
use wxf_im.Conn.Tcp.Interleaving.{
  joined, interleave, cut_schedule, whole_schedule, writes_of, control, cut_loses,
}
use wxf_im.Conn.Tcp.Interleaving
use wxf_im.Conn.Tcp.RoundTrip.{stream}
use wxf_im.Wire.Endian.{be_bytes}

abbrev idle : Chan
idle = record { queue = []; conn = buffer []; closed = new_event; loop = waiting }

abbrev schedule : List Step
schedule = pushes (1 ∷ []) ∷ pushes (2 ∷ []) ∷ writes false ∷ pushes (3 ∷ []) ∷ writes false ∷ []

abbrev message : Frame
message = record { op_code = op_binary; payload = 1 ∷ [] }

run-IsReady_example : IsReady (run idle schedule)
run-IsReady_example =
    run-IsReady idle schedule (record { fits = omega arith; enough = omega arith })

cut_loses_example :
    (read_frames 40 (
        joined (
          interleave cut_schedule
            (writes_of (Interleaving.message (7 ∷ [])))
            (writes_of (control op_ping)))
        ++ stream (message ∷ []))
      ≡ ([], some Error.unexpected_eof))
    × (read_frames 40 (
          joined (
            interleave whole_schedule
              (writes_of (Interleaving.message (7 ∷ [])))
              (writes_of (control op_ping)))
          ++ stream (message ∷ []))
        ≡ (control op_ping ∷ Interleaving.message (7 ∷ []) ∷ message ∷ [], some Error.eof))
unfolding be_bytes
cut_loses_example =
    cut_loses op_ping (7 ∷ []) (message ∷ []) 40 (omega arith) (omega arith)
      (record { op_byte = omega arith; payload_word = omega arith }, tt) (omega arith)

abbrev sent : List (Bytes × Bytes)
sent = ((1 ∷ 2 ∷ 3 ∷ 4 ∷ []), (0 ∷ 1 ∷ [])) ∷ ((5 ∷ 6 ∷ 7 ∷ 8 ∷ []), (9 ∷ [])) ∷ []

ws_session_example :
    (d : WsClient) × (client_close ws []
        (ok tt)
        (sends ws sent (ws_connect true (ok (some [])) (set_ws_dialer new_ws_client)).1)
      ≡ ok d)
    × (messages (readloop (received ws (frames_of d))).0 ≡ (0 ∷ 1 ∷ []) ∷ (9 ∷ []) ∷ [])
    × ((readloop (received ws (frames_of d))).1 ≡ some remote_closed)
    × (d.state ≡ 0)
ws_session_example = ws_session ws ws-IsDocumented sent [] (refl, (refl, tt))

abbrev ping : Frame
ping = record { op_code = op_ping; payload = [] }

abbrev close : Frame
close = record { op_code = op_close; payload = [] }

readloop-frames_example :
    let r = readloop (ok message ∷ ok ping ∷ ok close ∷ ok message ∷ []) in
    (messages r.0 ≡ (1 ∷ []) ∷ []) × (pongs r.0 ≡ 1) × (r.1 ≡ some remote_closed)
readloop-frames_example =
    readloop-frames (message ∷ ping ∷ []) close (ok message ∷ []) (refl, (refl, tt)) refl

-- ===== src/Tests/SessionRuns.antt =====
-- From a client to a server and back: wxf/tcp/client.go, wxf/tcp/connection.go and wxf/channel.go
use wxf_im.Prelude.{
  ◌+◌, ◌*◌, ◌≡◌, refl, true, false, some, List, [], ◌∷◌, arith, Bytes, Error, ok, remote_closed,
}
use wxf_im.Wire.Writer.{buffer, write}
use wxf_im.Wire.Endian.{be_bytes, write_uint8, write_uint32, write_bytes}
use wxf_im.Conn.Tcp.{read_frames, write_frame}
use wxf_im.Channel.Event.{new_event}
use wxf_im.Channel.ReadLoop.{readloop, messages}
use wxf_im.Channel.WriteLoop.{
  Chan, Step, waiting, pushes, writes, push, capacity, run, step, accepted_by,
}
use wxf_im.Channel.WriteLoop.Order.{frames}
use wxf_im.Channel.WriteLoop.Draining.{rounds}
use wxf_im.Channel.WriteLoop.Received.{pushed_received}
use wxf_im.Client.{new_client, set_dialer, connect, tcp_close}
use wxf_im.Channel.TcpMessages.{tcp_sends, bytes_out, arriving, tcp_session}

abbrev idle : Chan
idle = record { queue = []; conn = buffer []; closed = new_event; loop = waiting }

-- Two pushes with a round between them, and one after.
abbrev schedule : List Step
schedule = pushes (1 ∷ []) ∷ writes false ∷ pushes (2 ∷ []) ∷ writes true ∷ []

schedule_accepted : accepted_by idle schedule ≡ (1 ∷ []) ∷ (2 ∷ []) ∷ []
unfolding accepted_by step push write_frame write_uint8 write_uint32 write_bytes write be_bytes
schedule_accepted = refl

pushed_received_example :
    read_frames 100 (run (run idle schedule) (rounds (2 * capacity + 1))).conn.out
    ≡ (frames (accepted_by idle schedule), some Error.eof)
unfolding be_bytes
pushed_received_example =
    pushed_received idle schedule 100 (record { fits = omega arith; enough = omega arith })
      (record { takes = refl; not_closed = refl; goes_on = λ e. λ q. cc }) refl
      (rw schedule_accepted (
        record { op_byte = omega arith; payload_word = omega arith },
        (record { op_byte = omega arith; payload_word = omega arith }, tt),
      ))
      (rw schedule_accepted (omega arith))

abbrev payloads : List Bytes
payloads = (1 ∷ []) ∷ (2 ∷ 3 ∷ []) ∷ []

tcp_session_example :
    let d =
      tcp_close
        (tcp_sends payloads (connect true (ok (some (buffer []))) (set_dialer new_client)).1) in
    let r = readloop (arriving (read_frames 100 (bytes_out d))) in
    (messages r.0 ≡ payloads) × (r.1 ≡ some remote_closed) × (d.state ≡ 0)
unfolding be_bytes
tcp_session_example =
    tcp_session payloads 100 (refl, (refl, tt))
      (
        record { op_byte = omega arith; payload_word = omega arith },
        (
          record { op_byte = omega arith; payload_word = omega arith },
          (record { op_byte = omega arith; payload_word = omega arith }, tt),
        ),
      )
      (omega arith)

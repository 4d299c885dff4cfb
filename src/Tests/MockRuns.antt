-- ===== src/Tests/MockRuns.antt =====
-- wxf/examples/mock
use mathlib.Core.List.{Perm}
use mathlib.Core.List
use wxf_im.Prelude.{
  ◌≡◌, refl, true, List, [], ◌∷◌, ◌++◌, map, arith, Bytes, lit, bytes_eq, decimal, Error, ok, some,
  panicked, remote_closed,
}
use wxf_im.Wire.Writer.{buffer}
use wxf_im.Conn.{Frame}
use wxf_im.Wire.Endian.{be_bytes}
use wxf_im.Conn.Tcp.{read_frames}
use wxf_im.Client.{tcp_close}
use wxf_im.Channel.ReadLoop.{readloop, messages, all_ok}
use wxf_im.Channel.TcpMessages.{binary, farewell, bytes_out}
use wxf_im.Examples.Mock.{
  accept, receive, start_tcp, count, hello, send_loop, receive_loop, client_address, client_options,
  start_server,
}
use wxf_im.Examples.Mock.Echo.{hellos, session, echo_session}

default_address : client_address client_options ≡ lit "ws://localhost:8000"
unfolding client_address bytes_eq
default_address = refl

unknown_protocol : start_server (lit "udp") (ok tt) ≡ panicked
unfolding start_server bytes_eq
unknown_protocol = refl

answer_text : receive (lit "ann") (lit "hi") ≡ lit "ann receive hi from server "
unfolding receive
answer_text = refl

-- The first two answers change places, and one more frame follows.
abbrev order : List Bytes
order = hello 1 ∷ hello 0 ∷ hellos 4 2

abbrev more : List Frame
more = binary (lit "late") ∷ []

echo_session_example :
    let d =
      tcp_close (send_loop count 0 (λ i. ok tt) (start_tcp (lit "ann") true (ok (buffer []))).1) in
    let r = readloop (all_ok (map binary (hellos count 0)) ++ ok farewell ∷ []) in
    let loop =
      receive_loop count 0 (all_ok (map binary (map (receive (lit "ann")) order) ++ more)) in
    (read_frames 200 (bytes_out d) ≡ (session (lit "ann") ++ farewell ∷ [], some Error.eof))
    × (accept (ok (binary (lit "ann"))) ≡ ok (lit "ann"))
    × (messages r.0 ≡ hellos count 0)
    × (r.1 ≡ some remote_closed)
    × (loop ≡ (map (receive (lit "ann")) order, true))
    × Perm loop.0 (map (receive (lit "ann")) (hellos count 0))
unfolding bytes_eq decimal be_bytes
echo_session_example =
    echo_session (lit "ann") 200 order more refl (omega arith) (omega arith)
      (List.Perm.swap (hello 0) (hello 1) (hellos 4 2))

-- ===== src/Examples/Mock/Echo.antt =====
-- A whole session of ClientDemo of wxf/examples/mock/client.go with ServerHandler of
-- wxf/examples/mock/server.go, over wxf/tcp.
use mathlib.Core.Path.{subst}
use mathlib.Core.List.{append-nil, append_assoc, Perm}
use wxf_im.Prelude.{
  ℕ, zero, suc, ◌-◌, ◌<◌, ◌≡◌, refl, sym, ap, ◌∙◌, true, false, Bool-cases, inl, inr, some, List,
  [], ◌∷◌, ◌++◌, map, arith, leb, ◌==◌, length, keep, take, All, Bytes, bytes_eq, Error, Outcome,
  ok, remote_closed, length-map, length-append, take-append_length,
}
use wxf_im.Prelude.Perms.{Perm-length, Perm-map}
use wxf_im.Wire.Writer.{buffer}
use wxf_im.Conn.{Frame, op_binary}
use wxf_im.Conn.Tcp.{read_frames}
use wxf_im.Conn.Tcp.RoundTrip.{Fits, frame_bytes, stream, read_frames-stream}
use wxf_im.Client.{Client, connect, send, tcp_close}
use wxf_im.Channel.ReadLoop.{readloop, messages, all_ok, readloop-frames}
use wxf_im.Channel.TcpMessages.{
  binary, farewell, bytes_out, write_frame-buffer, stream-farewell, close-buffer, binary-is_open,
  kept_payloads,
}
use wxf_im.Examples.Mock.{
  accept, receive, tcp_dial_and_hand_shake, start_tcp, count, hello, after_send, send_loop,
  receive_loop,
}

-- The messages of the client, from number `i` on.
abbrev pub hellos : ℕ → ℕ → List Bytes
hellos zero i = []
hellos (suc n) i = hello i ∷ hellos n (suc i)

-- The client while it is connected, with what it has written.
abbrev pub connected : Bytes → Client
connected out = record { has_dialer = true; conn = some (buffer out); state = 1; once = false }

start_tcp-buffer :
    (id : Bytes) → start_tcp id true (ok (buffer [])) ≡ (ok tt, connected (frame_bytes (binary id)))
unfolding start_tcp tcp_dial_and_hand_shake connect
start_tcp-buffer id = rw (write_frame-buffer (binary id) [] (omega arith)) refl

-- A call of Send while the client is connected.
send_buffered :
    (p out : Bytes)
    → send (ok tt) p (connected out) ≡ (ok tt, connected (out ++ frame_bytes (binary p)))
unfolding send
send_buffered p out = rw (write_frame-buffer (binary p) out (omega arith)) refl

send_loop-buffer :
    (n i : ℕ) (out : Bytes)
    → send_loop n i (λ j. ok tt) (connected out)
      ≡ connected (out ++ stream (map binary (hellos n i)))
unfolding send_loop
send_loop-buffer zero i out = ap connected (sym (append-nil out))
send_loop-buffer (suc n) i out =
    ap (λ r. after_send r (send_loop n (suc i) (λ j. ok tt))) (send_buffered (hello i) out)
    ∙ send_loop-buffer n (suc i) (out ++ frame_bytes (binary (hello i)))
    ∙ ap connected
        (append_assoc out (frame_bytes (binary (hello i))) (stream (map binary (hellos n (suc i)))))

-- The payloads of the binary frames.
abbrev pub answers : List Frame → List Bytes
answers fs = map (λ f. f.payload) (keep (λ f. f.op_code == op_binary) fs)

-- The loop logs the first answers that are missing, and ends exactly where so many have come.
pub receive_loop-answers :
    (wanted recv : ℕ) (fs : List Frame)
    → recv < wanted
    → receive_loop wanted recv (all_ok fs)
      ≡ (take (wanted - recv) (answers fs), leb (wanted - recv) (length (answers fs)))
unfolding receive_loop
receive_loop-answers wanted recv [] below =
    let left : wanted - recv ≡ suc (wanted - suc recv) = omega arith in rw left (ground arith)
receive_loop-answers wanted recv (f ∷ fs) below = elim (Bool-cases (f.op_code == op_binary)) [
  | inr other ↦ rw other (receive_loop-answers wanted recv fs below)
  | inl is_answer ↦ elim (Bool-cases (suc recv == wanted)) [
    | inl last ↦
        let one : wanted - recv ≡ 1 = ground arith in rw (is_answer, last, one) (ground arith)
    | inr more ↦
        let rest = receive_loop-answers wanted (suc recv) fs (ground arith) in
        let left : wanted - recv ≡ suc (wanted - suc recv) = ground arith in
        rw (is_answer, more, left, rest) (ground arith)
  ]
]

answers-binary :
    (ps : List Bytes) (behind : List Frame)
    → answers (map binary ps ++ behind) ≡ ps ++ answers behind
answers-binary [] behind = refl
answers-binary (p ∷ ps) behind = ap (◌∷◌ p) (answers-binary ps behind)

-- Where as many answers have come as are wanted, the loop logs these and ends.
all_answered :
    (wanted : ℕ) (ps : List Bytes) (behind : List Frame)
    → 0 < wanted
    → length ps ≡ wanted
    → receive_loop wanted 0 (all_ok (map binary ps ++ behind)) ≡ (ps, true)
all_answered wanted ps behind some_wanted all =
    let whole : wanted - 0 ≡ length ps = omega (arith, all) in
    let enough : leb (length ps) (length (ps ++ answers behind)) ≡ true =
      ground (arith, length-append ps (answers behind)) in
    receive_loop-answers wanted 0 (map binary ps ++ behind) some_wanted
    ∙ rw (whole, answers-binary ps behind, take-append_length ps (answers behind), enough) refl

-- The frames of the client, up to the one of Close.
abbrev pub session : Bytes → List Frame
session id = binary id ∷ map binary (hellos count 0)

session-bytes :
    (id : Bytes)
    → let d = tcp_close (send_loop count 0 (λ i. ok tt) (start_tcp id true (ok (buffer []))).1) in
      bytes_out d ≡ stream (session id ++ farewell ∷ [])
session-bytes id =
    let sent =
      ap (λ (r : Outcome (Unit {0}) × Client). send_loop count 0 (λ i. ok tt) r.1)
        (start_tcp-buffer id)
      ∙ send_loop-buffer count 0 (frame_bytes (binary id)) in
    ap (λ c. bytes_out (tcp_close c)) sent
    ∙ (close-buffer (stream (session id))).0
    ∙ stream-farewell (session id)

hellos-some : (n i : ℕ) → All (λ p. (length p == 0) ≡ false) (hellos n i)
hellos-some zero i = tt
hellos-some (suc n) i = (ground arith, hellos-some n (suc i))

-- ClientDemo with ServerHandler over TCP, on connections that take everything: Accept gets the user id,
-- which is not empty, from the first frame; Readloop gets the six messages in their order, and ends at the
-- frame of Close; and in whatever order their goroutines push the answers, the client logs these answers
-- and leaves its loop at the last one, whatever comes behind it. The frames have fewer than 2^32
-- bytes each, and there is more fuel than bytes.
pub echo_session :
    (id : Bytes) (fuel : ℕ) (order : List Bytes) (behind : List Frame)
    → bytes_eq id [] ≡ false
    → All Fits (session id ++ farewell ∷ [])
    → length (stream (session id ++ farewell ∷ [])) < fuel
    → Perm order (hellos count 0)
    → let d = tcp_close (send_loop count 0 (λ i. ok tt) (start_tcp id true (ok (buffer []))).1) in
      let r = readloop (all_ok (map binary (hellos count 0)) ++ ok farewell ∷ []) in
      let loop = receive_loop count 0 (all_ok (map binary (map (receive id) order) ++ behind)) in
      (read_frames fuel (bytes_out d) ≡ (session id ++ farewell ∷ [], some Error.eof))
      × (accept (ok (binary id)) ≡ ok id)
      × (messages r.0 ≡ hellos count 0)
      × (r.1 ≡ some remote_closed)
      × (loop ≡ (map (receive id) order, true))
      × Perm loop.0 (map (receive id) (hellos count 0))
unfolding accept
echo_session id fuel order behind some_id fits enough any =
    let (m, p, e) =
      readloop-frames (map binary (hellos count 0)) farewell [] (binary-is_open (hellos count 0))
        refl in
    let six : length (map (receive id) order) ≡ count =
      length-map (receive id) order ∙ Perm-length any in
    let loop = all_answered count (map (receive id) order) behind (omega arith) six in
    (
      ap (read_frames fuel) (session-bytes id)
          ∙ read_frames-stream (session id ++ farewell ∷ []) fuel fits enough,
      rw some_id refl,
      m ∙ kept_payloads (hellos count 0) (hellos-some count 0),
      e,
      loop,
      subst (λ r. Perm r.0 (map (receive id) (hellos count 0))) (sym loop)
          (Perm-map (receive id) any),
    )

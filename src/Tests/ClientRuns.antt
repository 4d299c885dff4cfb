-- ===== src/Tests/ClientRuns.antt =====
-- wxf/tcp/client.go and wxf/websocket/client.go
use wxf_im.Prelude.{
  none, conn_nil, client_connected, ◌≡◌, refl, true, false, some, [], ◌∷◌, ok, err, panicked, suc,
  ◌+◌, ◌≢◌, inl, List, ◌++◌, arith, take, All, Error,
}
use wxf_im.Wire.Writer.{Writer, buffer}
use wxf_im.Client.{
  Client, new_client, set_dialer, connect, send, tcp_close, nil_dial-stuck,
  reconnected_cannot_close,
}
use wxf_im.Conn.{op_binary}
use wxf_im.Client.Calls.{Call, connects, sends, reads, closes, results, results-ne-panicked}
use wxf_im.Client.Heartbeat.{heartbeat_loop, ticks, pings, ping_frame, heartbeat_loop-ends}
use wxf_im.Conn.Tcp.RoundTrip.{frame_bytes}

abbrev first_conn : Writer
first_conn = buffer (1 ∷ [])

abbrev connected : Client
connected = record { has_dialer = true; conn = some first_conn; state = 1; once = false }

-- A client that is connected again after it was closed.
abbrev calls : List Call
calls =
    connects true (ok (some first_conn))
    ∷ sends (ok tt) (7 ∷ [])
    ∷ closes
    ∷ connects true (err Error.eof)
    ∷ reads (ok (record { op_code = op_binary; payload = 1 ∷ [] }))
    ∷ []

results-ne-panicked_example : All (λ r. r ≢ panicked) (results calls (set_dialer new_client))
results-ne-panicked_example =
    results-ne-panicked calls (set_dialer new_client)
      (((λ q. cc), λ q. cc), ((λ q. cc), (tt, (((λ q. cc), λ q. cc), ((λ q. cc), tt)))))
      (refl, inl refl)

-- Room for a ping, and for two bytes of another.
abbrev narrow : Writer
narrow = record { out = []; room = some 7 }

heartbeat_loop-ends_example : heartbeat_loop (ticks (1 + suc 3)) narrow ≡ (
  err Error.write_failed,
  record { out = narrow.out ++ (pings 1 ++ take 2 (frame_bytes ping_frame)); room = some 0 },
)
heartbeat_loop-ends_example = heartbeat_loop-ends 1 3 2 narrow refl (omega arith)

nil_dial-stuck_example :
    let c = (connect true (ok none) (set_dialer new_client)).1 in
    ((connect true (ok none) (set_dialer new_client)).0 ≡ err conn_nil)
    × ((send (ok tt) (7 ∷ []) c).0 ≡ panicked)
    × ((connect true (ok (some first_conn)) c).0 ≡ err client_connected)
nil_dial-stuck_example =
    nil_dial-stuck (set_dialer new_client) (ok (some first_conn)) (ok tt) (7 ∷ []) refl refl refl

reconnected_cannot_close_example :
    let again = connect true (ok (some (buffer []))) (tcp_close connected) in
    (again.0 ≡ ok tt)
    × (tcp_close again.1 ≡ again.1)
    × (again.1.conn ≡ some (buffer []))
    × (again.1.state ≡ 1)
reconnected_cannot_close_example =
    reconnected_cannot_close connected first_conn (buffer []) refl refl refl refl

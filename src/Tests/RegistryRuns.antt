-- ===== src/Tests/RegistryRuns.antt =====
-- The life of connections in wxf/tcp/server.go
use wxf_im.Prelude.{
  ℕ, ◌≡◌, refl, ◌≢◌, ◌↔◌, true, false, Option, some, List, [], ◌∷◌, arith, Bytes, lit, bytes_eq,
  Outcome, ok, remote_closed,
}
use wxf_im.Prelude.Assoc.{Assoc, lookup, insert, delete}
use wxf_im.Conn.{Frame, op_binary, op_close}
use wxf_im.Channel.ChannelMap.{get, add, remove}
use wxf_im.Channel.ReadLoop
use wxf_im.Channel.ReadLoop.{readloop}
use wxf_im.Server.Registry.{Registry, unnamed, live, ended, step}
use wxf_im.Server.Registry.Moves.{Reach, start, later, empty_registry}
use wxf_im.Server.Registry.Distinct.{AreDistinct, distinct_exact}
use wxf_im.Server.Connection
use wxf_im.Server.Connection.{added, looped, removed, told, channel_closed, tcp_connection}
use wxf_im.Server.Connection.Steps.{answer, steps, is_told, is_closed, tcp_connection-steps}

-- Each connection has its number for its id.
abbrev own_id : ℕ → Option Bytes
own_id c = some (c ∷ [])

own_id-AreDistinct : AreDistinct own_id
own_id-AreDistinct c d id p q = ground (arith, p, q)

-- Connection 5 is live, and 6 named.
abbrev some_steps : Registry
some_steps =
    let r₁ = step (own_id 5) empty_registry 5 in
    let r₂ = step (own_id 5) r₁ 5 in let r₃ = step (own_id 6) r₂ 6 in step (own_id 5) r₃ 5

some_steps-Reach : Reach own_id some_steps
some_steps-Reach = later (later (later (later start 5) 5) 6) 5

distinct_exact_example :
    ((lookup (5 ∷ []) some_steps.channels ≡ some 5) ↔ (some_steps.stage 5 ≡ live (5 ∷ [])))
    × (some_steps.stage 5 ≢ ended false)
distinct_exact_example = distinct_exact own_id-AreDistinct some_steps-Reach (5 ∷ []) 5 refl

abbrev arriving : Registry
arriving = record { channels = (lit "a", 4) ∷ []; stage = λ c. unnamed }

abbrev frames : List (Outcome Frame)
frames =
    ok (record { op_code = op_binary; payload = 1 ∷ [] })
    ∷ ok (record { op_code = op_close; payload = [] })
    ∷ []

frames_end : (readloop frames).1 ≡ some remote_closed
unfolding readloop
frames_end = refl

-- What is done with the connection 7, which Accept names "b".
abbrev run : List Connection.Effect × Assoc ℕ
run = (
  added (lit "b")
      ∷ looped ReadLoop.set_write_deadline
      ∷ looped (ReadLoop.spawned (1 ∷ []))
      ∷ looped ReadLoop.set_write_deadline
      ∷ removed (lit "b")
      ∷ told (lit "b")
      ∷ channel_closed
      ∷ [],
  arriving.channels,
)

served_run : tcp_connection (λ e. []) (ok (lit "b")) 7 frames arriving.channels ≡ ok run
unfolding tcp_connection readloop get add remove lookup insert delete bytes_eq
served_run = refl

tcp_connection-steps_example :
    ((steps 4 (answer (ok (lit "b"))) arriving 7).channels ≡ run.1)
    × ((steps 4 (answer (ok (lit "b"))) arriving 7).stage 7 ≡ ended (is_told run.0))
    × (is_closed run.0 ≡ true)
tcp_connection-steps_example =
    tcp_connection-steps (λ e. []) (ok (lit "b")) arriving 7 frames remote_closed run refl
      frames_end served_run

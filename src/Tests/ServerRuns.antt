-- ===== src/Tests/ServerRuns.antt =====
-- wxf/tcp/server.go and wxf/websocket/server.go
use wxf_im.Prelude.{ℕ, Option, some, Bytes, ◌≡◌, refl, false, none, [], ◌∷◌, arith, lit}
use wxf_im.Prelude.Assoc.{lookup}
use wxf_im.Wire.Writer.{buffer}
use wxf_im.Channel.Event.{new_event}
use wxf_im.Channel.WriteLoop.{Chan, waiting}
use wxf_im.Server.{Server, ws_shutdowns, ws_shutdowns-none}
use wxf_im.Server.Registry.{live, step}
use wxf_im.Server.Registry.Moves.{Reach, start, empty_registry}
use wxf_im.Server.Registry.Race.{both_added, register_race}

abbrev idle : Chan
idle = record { queue = []; conn = buffer []; closed = new_event; loop = waiting }

abbrev serving : Server
serving = record { channels = (lit "a", idle) ∷ (lit "b", idle) ∷ []; once = false; quit = 0 }

ws_shutdowns-none_example : ws_shutdowns ((λ i. false) ∷ (λ i. false) ∷ []) serving ≡ []
ws_shutdowns-none_example = ws_shutdowns-none ((λ i. false) ∷ (λ i. false) ∷ []) serving refl refl

-- Accept names both connections "a".
abbrev same_id : ℕ → Option Bytes
same_id c = some (lit "a")

register_race_example :
    let s = both_added same_id empty_registry 1 2 in
    let s' = step (same_id 1) s 1 in
    Reach same_id s
    × (s.stage 1 ≡ live (lit "a"))
    × (s.stage 2 ≡ live (lit "a"))
    × Reach same_id s'
    × (s'.stage 2 ≡ live (lit "a"))
    × (lookup (lit "a") s'.channels ≡ none)
unfolding lookup
register_race_example =
    register_race {ids = same_id} start 1 2 (lit "a") (omega arith) refl refl refl refl refl

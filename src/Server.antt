-- ===== src/Server.antt =====
-- wxf/tcp/server.go and wxf/websocket/server.go: pushing to channels, shutting down, and the life of
-- a connection.
pub mod Registry
pub mod Connection
pub mod Settings
use wxf_im.Prelude.{
  ℕ, suc, ◌+◌, ◌-◌, ◌≡◌, refl, ap, Bool, true, false, none, some, List, [], ◌∷◌, ◌++◌, arith, ◌==◌,
  if◌then◌else◌, Bytes, channel_not_found,
}
use wxf_im.Prelude.Assoc.{Assoc}
use wxf_im.Channel.ChannelMap
use wxf_im.Channel.WriteLoop.{Chan, PushResult, refused}
use wxf_im.Channel.WriteLoop

-- The fields of either Server that change: the channels, sync.Once and `quit`.
pub record Server : Type 0 where
  pub channels : Assoc Chan
  pub once : Bool
  pub quit : ℕ

-- (s *Server) Push(id, data) of both servers
unfoldable pub push : Bytes → Bytes → Server → PushResult × Server
push id bytes s = elim (ChannelMap.get id s.channels) [
  | none ↦ (refused channel_not_found, s)
  | some ch ↦
      let (r, ch') = WriteLoop.push bytes ch in
      (r, record s { channels = ChannelMap.add id ch' s.channels })
]

-- The loop of Shutdown over All(): it closes a channel, and stops if ctx is done by then. `done
-- i` says whether it is after the i-th close.
unfoldable pub close_each {ℓ} : {A : Type ℓ} → (ℕ → Bool) → ℕ → List A → List A
close_each done i [] = []
close_each done i (ch ∷ chs) =
    let rest = close_each done (suc i) chs in if done i then ch ∷ [] else ch ∷ rest

-- (s *Server) Shutdown(ctx) of wxf/tcp: the channels that it closes, and the server after it.
unfoldable pub tcp_shutdown : (ℕ → Bool) → Server → List Chan × Server
tcp_shutdown done s =
    if s.once
    then ([], s)
    else if s.quit == 0
    then (close_each done 0 (ChannelMap.all s.channels), record s { once = true; quit = 1 })
    else ([], record s { once = true })

-- (s *Server) Shutdown(ctx) of wxf/websocket: it returns where the CompareAndSwap of `quit`
-- succeeds.
unfoldable pub ws_shutdown : (ℕ → Bool) → Server → List Chan × Server
ws_shutdown done s =
    if s.once
    then ([], s)
    else if s.quit == 0
    then ([], record s { once = true; quit = 1 })
    else (close_each done 0 (ChannelMap.all s.channels), record s { once = true })

close_each-never : {A : Type 0} (i : ℕ) (chs : List A) → close_each (λ j. false) i chs ≡ chs
unfolding close_each
close_each-never i [] = refl
close_each-never i (ch ∷ chs) = ap (◌∷◌ ch) (close_each-never (suc i) chs)

-- Shutdown of a running TCP server closes every channel, where the context is not done before; a
-- later call closes none.
pub tcp_shutdown-all :
    (s : Server) (done : ℕ → Bool)
    → s.once ≡ false
    → s.quit ≡ 0
    → ((tcp_shutdown (λ i. false) s).0 ≡ ChannelMap.all s.channels)
      × ((tcp_shutdown done (tcp_shutdown (λ i. false) s).1).0 ≡ [])
unfolding tcp_shutdown
tcp_shutdown-all s done fresh running =
    ground (arith, close_each-never 0 (ChannelMap.all s.channels))

-- The calls of Shutdown in the life of a WebSocket server, and the channels that they close.
unfoldable pub ws_shutdowns : List (ℕ → Bool) → Server → List Chan
ws_shutdowns [] s = []
ws_shutdowns (done ∷ dones) s =
    let (closed, s') = ws_shutdown done s in closed ++ ws_shutdowns dones s'

ws_shutdowns-after :
    (dones : List (ℕ → Bool)) (s : Server) → s.once ≡ true → ws_shutdowns dones s ≡ []
unfolding ws_shutdowns ws_shutdown
ws_shutdowns-after [] s h = refl
ws_shutdowns-after (done ∷ dones) s h =
    rw h (ws_shutdowns-after dones (record s { once = true }) refl)

-- However often Shutdown of a running WebSocket server is called, it closes no channel at all.
pub ws_shutdowns-none :
    (dones : List (ℕ → Bool)) (s : Server) → s.once ≡ false → s.quit ≡ 0 → ws_shutdowns dones s ≡ []
unfolding ws_shutdowns ws_shutdown
ws_shutdowns-none [] s fresh running = refl
ws_shutdowns-none (done ∷ dones) s fresh running =
    rw (fresh, running) (ws_shutdowns-after dones (record s { once = true; quit = 1 }) refl)

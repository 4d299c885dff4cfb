-- ===== src/Server/Connection.antt =====
-- Start of wxf/tcp/server.go and wxf/websocket/server.go: the loop that accepts, and what is done
-- with a connection while no other goroutine uses the channels.
pub mod Steps
use wxf_im.Prelude.{
  ℕ, zero, suc, ◌+◌, ◌-◌, ◌*◌, ◌/◌, ◌%◌, ◌^◌, ◌≤◌, ◌<◌, String, ◌≡◌, refl, sym, ap, ◌∙◌, ◌≢◌, ◌↔◌,
  ◌⊎◌, inl, inr, Bool, true, false, not, ◌&&◌, ◌||◌, Option, none, some, List, [], ◌∷◌, ◌++◌, map,
  arith, ltb, leb, ◌==◌, if◌then◌else◌, ltb→lt, lt→ltb, ==_iff, Bool-cases, Option-cases, length,
  get_elem?, set, take, drop, keep, All, length-append, take-append_length, drop-append_length,
  take-append-drop, length-take, length-drop, length-map, All-append, keep-append, length-keep-le,
  Bytes, IsByte, AllBytes, lit, bytes_eq, bytes_eq_refl, bytes_eq_iff, bytes_eq-cases, join, split,
  split_two, cons_head, Lacks, decimal, decimal-injective, decimal-Lacks, split-join,
  split_two-append, split_two-Lacks, Error, Outcome, ok, err, panicked, ◌>>=◌, ◌>>◌, guard, or_fail,
  >>=-eq-ok, guard-eq-ok, or_fail-eq-ok,
}
use wxf_im.Prelude.Assoc.{Assoc, lookup, insert, delete}
use wxf_im.Conn.{Frame}
use wxf_im.Channel.ChannelMap.{add, remove, get}
use wxf_im.Channel.ReadLoop
use wxf_im.Channel.ReadLoop.{readloop}

-- What lst.Accept() returns; beside its error stands a connection, or nil.
pub data Accepted (C : Type 0) : Type 0 where
  connected : C → Accepted C
  failed : Option C → Error → Accepted C

-- The loop of tcp Start over what lst.Accept() returns: the connections that get a goroutine, and
-- how Start ends, if it does. Close of a nil connection panics.
unfoldable pub accept_loop : {C : Type 0} → List (Accepted C) → List C × Option (Outcome (Unit {0}))
accept_loop [] = ([], none)
accept_loop (connected c ∷ later) = let (cs, end) = accept_loop later in (c ∷ cs, end)
accept_loop (failed none e ∷ later) = ([], some panicked)
accept_loop (failed (some c) e ∷ later) = ([], some (err e))

-- What is done with a connection.
pub data Effect : Type 0 where
  wrote_close : Bytes → Effect
  conn_closed : Effect
  added : Bytes → Effect
  looped : ReadLoop.Effect → Effect
  removed : Bytes → Effect
  told : Bytes → Effect
  channel_closed : Effect

-- From Add on: Readloop over the frames of the connection, and where it ends Remove, Disconnect
-- and Close.
abbrev pub run_channel :
    Bytes → List ReadLoop.Effect × Option Error → Assoc ℕ → List Effect × Assoc ℕ
run_channel id (es, none) channels = (added id ∷ map looped es, channels)
run_channel id (es, some e) channels =
    (added id ∷ map looped es ++ removed id ∷ told id ∷ channel_closed ∷ [], remove id channels)

-- The look-up of the id in the ChannelMap, and what follows.
abbrev pub enter : Bytes → ℕ → List (Outcome Frame) → Assoc ℕ → Option ℕ → List Effect × Assoc ℕ
enter id c frames channels (some other) =
    (wrote_close (lit "channelId is repeated") ∷ conn_closed ∷ [], channels)
enter id c frames channels none = run_channel id (readloop frames) (add id c channels)

-- The goroutine of tcp Start for the connection `c`, given what Accept returns, the text of an
-- error and the frames of the connection.
unfoldable pub tcp_connection :
    (Error → Bytes)
    → Outcome Bytes
    → ℕ
    → List (Outcome Frame)
    → Assoc ℕ
    → Outcome (List Effect × Assoc ℕ)
tcp_connection text (ok id) c frames channels = ok (enter id c frames channels (get id channels))
tcp_connection text (err e) c frames channels =
    ok (wrote_close (text e) ∷ conn_closed ∷ [], channels)
tcp_connection text panicked c frames channels = panicked

-- ws.UpgradeHTTP: it succeeds, or returns an error beside a connection or nil.
pub data Upgraded : Type 0 where
  upgraded : Upgraded
  not_upgraded : Bool → Upgraded

-- The handler of websocket Start for a request.
unfoldable pub ws_connection :
    Upgraded
    → (Error → Bytes)
    → Outcome Bytes
    → ℕ
    → List (Outcome Frame)
    → Assoc ℕ
    → Outcome (List Effect × Assoc ℕ)
ws_connection (not_upgraded true) text accept c frames channels = ok (conn_closed ∷ [], channels)
ws_connection (not_upgraded false) text accept c frames channels = panicked
ws_connection upgraded text (ok id) c frames channels =
    ok (enter id c frames channels (get id channels))
ws_connection upgraded text (err e) c frames channels =
    ok (wrote_close (text e) ∷ conn_closed ∷ [], channels)
ws_connection upgraded text panicked c frames channels = panicked

-- Every connection that Accept returns before its first error gets one goroutine, in order; the
-- error, which stands beside a nil connection, makes Start panic, and nothing is accepted after
-- it.
pub accept_loop-failed :
    {C : Type 0} (cs : List C) (e : Error) (later : List (Accepted C))
    → accept_loop (map connected cs ++ failed none e ∷ later) ≡ (cs, some panicked)
unfolding accept_loop
accept_loop-failed [] e later = refl
accept_loop-failed (c ∷ cs) e later = rw (accept_loop-failed cs e later) refl

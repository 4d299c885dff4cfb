-- ===== src/Naming/Consul.antt =====
-- wxf/naming/consul/naming.go: the registry client. The consul API is what its queries return.
pub mod Register
use wxf_im.Prelude.{
  ℕ, ◌≡◌, refl, ◌≢◌, Bool, true, false, Option, none, some, List, [], ◌∷◌, ◌++◌, arith,
  if◌then◌else◌, All, Bytes, lit, bytes_eq_refl, bytes_eq_iff, Error, Outcome, ok, err, panicked,
  ◌>>=◌, already_subscribed,
}
use wxf_im.Prelude.Assoc.{Assoc, lookup, insert, delete, lookup-delete}
use wxf_im.Naming.{Registration}

-- A Watch: `quit` says that its channel is closed.
pub record Watch : Type 0 where
  pub service : Bytes
  pub wait_index : ℕ
  pub quit : Bool

-- n.watches
abbrev pub Watches : Type 0
Watches = Assoc Watch

abbrev pub new_watch : Bytes → Watch
new_watch name = record { service = name; wait_index = 0; quit = false }

-- Subscribe(serviceName, callback): it starts the watch that it enters.
unfoldable pub subscribe : Bytes → Watches → Outcome (Unit {0}) × Watches
subscribe name ws = elim (lookup name ws) [
  | some w ↦ (err already_subscribed, ws)
  | none ↦ (ok tt, insert name (new_watch name) ws)
]

-- Unsubscribe(serviceName): the watch whose Quit it closes, and the map after it.
unfoldable pub unsubscribe : Bytes → Watches → Option Watch × Watches
unsubscribe name ws = (
  elim (lookup name ws) [ none ↦ none | some w ↦ some (record w { quit = true }) ],
  delete name ws,
)

-- A service of the catalog, with its health.
pub record Entry : Type 0 where
  pub service_id : Bytes
  pub service_name : Bytes
  pub service_address : Bytes
  pub service_port : ℕ
  pub service_tags : List Bytes
  pub has_meta : Bool
  pub service_meta : Assoc Bytes
  pub passing : Bool

-- KeyProtocol
abbrev pub key_protocol : Bytes
key_protocol = lit "protocol"

-- A map entry, or "" where there is none.
abbrev pub text_or_empty : Option Bytes → Bytes
text_or_empty none = []
text_or_empty (some text) = text

abbrev pub meta_or_empty : Bytes → Assoc Bytes → Bytes
meta_or_empty key meta = text_or_empty (lookup key meta)

-- The DefaultService that load makes of a service.
abbrev pub registration_of : Entry → Registration
registration_of e = record {
  id = e.service_id;
  name = e.service_name;
  address = e.service_address;
  port = e.service_port;
  protocol = meta_or_empty key_protocol e.service_meta;
  namespace = [];
  tags = e.service_tags;
  has_meta = e.has_meta;
  meta = e.service_meta;
}

-- The loop of load: services that do not pass their checks are left out.
unfoldable pub passing_services : List Entry → List Registration
passing_services [] = []
passing_services (e ∷ es) =
    let rest = passing_services es in if e.passing then registration_of e ∷ rest else rest

-- load(name, waitIndex): the services and meta.LastIndex, of what the query returns.
unfoldable pub load : Outcome (List Entry × ℕ) → Outcome (List Registration × ℕ)
load query = do (entries, last_index) ← query; ok (passing_services entries, last_index)

-- Find(serviceName)
unfoldable pub find : Outcome (List Entry × ℕ) → Outcome (List Registration)
find query = do (services, last_index) ← load query; ok services

-- What a round of watch meets: what the query returns, and whether Quit is closed by then.
pub record Round : Type 0 where
  pub query : Outcome (List Entry × ℕ)
  pub quit : Bool

-- The state of watch: the index of the next query, whether it has stopped, and the lists given to
-- the callback.
pub record Watching : Type 0 where
  pub wait_index : ℕ
  pub stopped : Bool
  pub calls : List (List Registration)

after_load : Bool → Bool → Outcome (List Registration × ℕ) → Watching → Watching
after_load has_callback quit (ok (services, last_index)) w =
    if quit then record w { stopped = true } else record w {
      wait_index = last_index;
      calls = if has_callback then w.calls ++ services ∷ [] else w.calls;
    }
after_load has_callback quit (err e) w = w
after_load has_callback quit panicked w = w

-- doWatch(service, callback): an error of load returns before Quit is looked at.
unfoldable pub do_watch : Bool → Round → Watching → Watching
unfolding after_load
do_watch has_callback r w = after_load has_callback r.quit (load r.query) w

-- for !stopped
unfoldable pub watch_loop : List Round → Watching → Watching
watch_loop [] w = w
watch_loop (r ∷ rs) w =
    let w' = do_watch true r w in let rest = watch_loop rs w' in if w.stopped then w else rest

-- watch(wh): the first round has no callback.
unfoldable pub watch : List Round → Watching
unfolding watch_loop
watch [] = record { wait_index = 0; stopped = false; calls = [] }
watch (r ∷ rs) =
    watch_loop rs (do_watch false r (record { wait_index = 0; stopped = false; calls = [] }))

-- A second subscription to a name is refused and changes nothing; after Unsubscribe the name is free
-- again, its watch was told to quit, and other names are as before.
pub subscriptions :
    (name other : Bytes) (ws : Watches) (w : Watch)
    → lookup name ws ≡ some w
    → name ≢ other
    → (subscribe name ws ≡ (err already_subscribed, ws))
      × ((unsubscribe name ws).0 ≡ some (record w { quit = true }))
      × (lookup other (unsubscribe name ws).1 ≡ lookup other ws)
      × ((subscribe name (unsubscribe name ws).1).0 ≡ ok tt)
unfolding subscribe unsubscribe
subscriptions name other ws w h ne = (
  rw (h, subscribe),
  rw (h, unsubscribe),
  ground (arith, lookup-delete name other ws, bytes_eq_iff name other),
  ground (arith, lookup-delete name name ws, bytes_eq_refl name),
)

if_same {ℓ} : {A : Type ℓ} (b : Bool) (a : A) → (if b then a else a) ≡ a
if_same true a = refl
if_same false a = refl

do_watch-fails : (r : Round) (w : Watching) (e : Error) → r.query ≡ err e → do_watch true r w ≡ w
unfolding do_watch load
do_watch-fails r w e failed = rw failed refl

-- While the registry answers with errors, a watch does not stop and calls nobody, whether or not it
-- was told to quit.
pub watch_deaf :
    (rs : List Round) (w : Watching)
    → All (λ r. (e : Error) × (r.query ≡ err e)) rs
    → watch_loop rs w ≡ w
unfolding watch_loop
watch_deaf [] w h = refl
watch_deaf (r ∷ rs) w ((e, failed), h) =
    let rest = watch_deaf rs w h in rw (do_watch-fails r w e failed, rest) (if_same w.stopped w)

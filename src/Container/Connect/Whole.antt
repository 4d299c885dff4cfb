-- ===== src/Container/Connect/Whole.antt =====
-- connectToService of wxf/container/container.go as a whole: the new client map, the
-- subscription, the services that are there already.
use wxf_im.Prelude.{
  ℕ, ◌≡◌, refl, ap, ◌∙◌, Bool, false, none, some, List, [], if◌then◌else◌, Bytes, bytes_eq,
  bytes_eq_refl, Outcome, ok, err, panicked, already_subscribed,
}
use wxf_im.Prelude.Assoc.{Assoc, lookup, insert, lookup-insert}
use wxf_im.Naming.{Registration}
use wxf_im.Naming.Consul.{Entry, Watch, Watches, new_watch, subscribe, find, passing_services, load}
use wxf_im.Container.Clients.{Clients}
use wxf_im.Container.Connect.{connected_clients}

-- c.srvClients and the watches of c.Naming
pub record Connections : Type 0 where
  pub srv_clients : Assoc Clients
  pub watches : Watches

-- With the clients of the service; where a loop has panicked there are none.
abbrev pub with_clients :
    Bytes → Outcome (Unit {0}) → Outcome Clients → Connections → Outcome (Unit {0}) × Connections
with_clients name result (ok cs) c =
    (result, record c { srv_clients = insert name cs c.srv_clients })
with_clients name result (err e) c = (err e, c)
with_clients name result panicked c = (panicked, c)

-- After Find, which the callback may precede with the services `watched`.
abbrev pub after_find :
    Bool
    → (Registration → Outcome (Unit {0}))
    → Bytes
    → List Registration
    → Outcome (List Registration)
    → Connections
    → Outcome (Unit {0}) × Connections
after_find has_dialer dial name watched (ok found) c =
    with_clients name (ok tt) (connected_clients has_dialer dial watched found) c
after_find has_dialer dial name watched (err e) c =
    with_clients name (err e) (connected_clients has_dialer dial watched []) c
after_find has_dialer dial name watched panicked c = (panicked, c)

-- After Subscribe, by its result and the watches after it.
abbrev pub after_subscribe :
    (Connections → Outcome (Unit {0}) × Connections)
    → Assoc Clients
    → Outcome (Unit {0}) × Watches
    → Outcome (Unit {0}) × Connections
after_subscribe follow clients (ok u, ws) = follow (record { srv_clients = clients; watches = ws })
after_subscribe follow clients (err e, ws) = (err e, record { srv_clients = clients; watches = ws })
after_subscribe follow clients (panicked, ws) =
    (panicked, record { srv_clients = clients; watches = ws })

-- connectToService(serviceName), given what Find queries and the services that the callback has
-- got by then
unfoldable pub connect_to_service :
    Bool
    → (Registration → Outcome (Unit {0}))
    → Bytes
    → List Registration
    → Outcome (List Entry × ℕ)
    → Connections
    → Outcome (Unit {0}) × Connections
connect_to_service has_dialer dial name watched query c =
    after_subscribe (after_find has_dialer dial name watched (find query))
      (insert name [] c.srv_clients) (subscribe name c.watches)

subscribe-known :
    (name : Bytes) (ws : Watches) (w : Watch)
    → lookup name ws ≡ some w
    → subscribe name ws ≡ (err already_subscribed, ws)
unfolding subscribe
subscribe-known name ws w known = rw (known, subscribe) refl

subscribe-free :
    (name : Bytes) (ws : Watches)
    → lookup name ws ≡ none
    → subscribe name ws ≡ (ok tt, insert name (new_watch name) ws)
unfolding subscribe
subscribe-free name ws free = rw (free, subscribe) refl

lookup-inserted :
    {V : Type 0} (name : Bytes) (v : V) (m : Assoc V) → lookup name (insert name v m) ≡ some v
lookup-inserted name v m =
    lookup-insert name name v m ∙ ap (λ b. if b then some v else lookup name m) (bytes_eq_refl name)

module _ (has_dialer : Bool) (dial : Registration → Outcome (Unit {0})) (name : Bytes)
    (watched : List Registration) where
  -- A second connectToService for a service is refused, and has by then put an empty client map
  -- in the place of the one that the first has filled; other services keep theirs.
  pub connect_to_service-twice :
      (other : Bytes) (w : Watch) (query : Outcome (List Entry × ℕ)) (c : Connections)
      → lookup name c.watches ≡ some w
      → bytes_eq name other ≡ false
      → let r = connect_to_service has_dialer dial name watched query c in
        (r.0 ≡ err already_subscribed)
        × (lookup name r.1.srv_clients ≡ some [])
        × (lookup other r.1.srv_clients ≡ lookup other c.srv_clients)
        × (r.1.watches ≡ c.watches)
  unfolding connect_to_service
  connect_to_service-twice other w query c known ne =
      let whole =
        ap
          (after_subscribe (after_find has_dialer dial name watched (find query))
            (insert name [] c.srv_clients))
          (subscribe-known name c.watches w known) in
      (
        ap (λ (r : Outcome (Unit {0}) × Connections). r.0) whole,
        ap (λ (r : Outcome (Unit {0}) × Connections). lookup name r.1.srv_clients) whole
            ∙ lookup-inserted name [] c.srv_clients,
        ap (λ (r : Outcome (Unit {0}) × Connections). lookup other r.1.srv_clients) whole
            ∙ lookup-insert name other [] c.srv_clients
            ∙ ap (λ b. if b then some [] else lookup other c.srv_clients) ne,
        ap (λ (r : Outcome (Unit {0}) × Connections). r.1.watches) whole,
      )

  -- Where a service is not watched yet, Find succeeds and nothing panics, connectToService leaves the clients
  -- that it built from what the watch had reported and from the healthy services of the catalog
  -- under its name, and the name subscribed.
  pub connect_to_service_lem :
      (entries : List Entry) (last_index : ℕ) (c : Connections) (cs : Clients)
      → lookup name c.watches ≡ none
      → connected_clients has_dialer dial watched (passing_services entries) ≡ ok cs
      → let r = connect_to_service has_dialer dial name watched (ok (entries, last_index)) c in
        (r.0 ≡ ok tt)
        × (lookup name r.1.srv_clients ≡ some cs)
        × ((subscribe name r.1.watches).0 ≡ err already_subscribed)
  unfolding connect_to_service find load
  connect_to_service_lem entries last_index c cs free clients =
      let query : Outcome (List Entry × ℕ) = ok (entries, last_index) in
      let whole =
        ap
          (after_subscribe (after_find has_dialer dial name watched (find query))
            (insert name [] c.srv_clients))
          (subscribe-free name c.watches free)
        ∙ ap
            (λ built. with_clients name (ok tt) built (record {
              srv_clients = insert name [] c.srv_clients;
              watches = insert name (new_watch name) c.watches;
            }))
            clients in
      (
        ap (λ (r : Outcome (Unit {0}) × Connections). r.0) whole,
        ap (λ (r : Outcome (Unit {0}) × Connections). lookup name r.1.srv_clients) whole
            ∙ lookup-inserted name cs (insert name [] c.srv_clients),
        ap (λ (r : Outcome (Unit {0}) × Connections). (subscribe name r.1.watches).0) whole
            ∙ ap (λ (p : Outcome (Unit {0}) × Watches). p.0)
                (subscribe-known name (insert name (new_watch name) c.watches) (new_watch name)
                  (lookup-inserted name (new_watch name) c.watches)),
      )

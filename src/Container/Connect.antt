-- ===== src/Container/Connect.antt =====
-- connectToService and buildClient of wxf/container/container.go: clients of discovered services.
-- The network is what Connect returns.
pub mod Whole
use wxf_im.Prelude.{
  ◌≡◌, refl, ◌≢◌, inl, inr, Bool, true, false, not, Option, none, some, List, [], ◌∷◌,
  if◌then◌else◌, Bool-cases, Option-cases, arith, >>=-eq-ok, ◌>>=◌, no_services, Bytes, lit,
  bytes_eq, Outcome, ok, err, panicked, unexpected_protocol, dialer_nil,
}
use wxf_im.Prelude.Assoc
use wxf_im.Prelude.Assoc.{Assoc, insert}
use wxf_im.Wire.Pkt.Message.{Header}
use wxf_im.Naming.{Registration}
use wxf_im.Container.{key_service_state, state_young, state_adult}
use wxf_im.Container.Clients
use wxf_im.Container.Clients.{Client, Clients, Service, range_services}
use wxf_im.Container.Forward.{Routes, lookup}

-- tcp.NewClientWithProps(id, name, meta, options): a *tcp.Client has ID, Name and Send, but none of
-- the methods of a wxf.Service, so it is no wxf.Service.
abbrev pub tcp_client : Registration → Client
tcp_client s = record { id = s.id; name = s.name; service = none }

-- buildClient(clients, service), given whether a dialer is set and what Connect returns
unfoldable pub build_client :
    Bool → Outcome (Unit {0}) → Registration → Clients → Outcome (Option Client) × Clients
build_client has_dialer connected s cs = elim (Clients.get s.id cs) [
  | some c ↦ (ok none, cs)
  | none ↦
      if not (bytes_eq s.protocol (lit "tcp"))
      then (err unexpected_protocol, cs)
      else if not has_dialer
      then (err dialer_nil, cs)
      else elim connected [
        | ok u ↦ (ok (some (tcp_client s)), Clients.add (tcp_client s) cs)
        | err e ↦ (err e, cs)
        | panicked ↦ (panicked, cs)
      ]
]

-- service.GetMeta()[KeyServiceState] = state: an assignment into a nil map panics.
abbrev pub with_state : Bytes → Registration → Outcome Registration
with_state state s =
    if s.has_meta then ok (record s { meta = insert key_service_state state s.meta }) else panicked

-- The loops drop the result of buildClient but for a panic.
abbrev pub after_build :
    Registration → Outcome (Option Client) × Clients → Outcome (Registration × Clients)
after_build marked (ok built, cs) = ok (marked, cs)
after_build marked (err e, cs) = ok (marked, cs)
after_build marked (panicked, cs) = panicked

-- A service is marked with a state, and a client is built for it.
unfoldable pub mark_and_build :
    Bool
    → (Registration → Outcome (Unit {0}))
    → Bytes
    → Registration
    → Clients
    → Outcome (Registration × Clients)
mark_and_build has_dialer dial state s cs = do
  marked ← with_state state s
  after_build marked (build_client has_dialer (dial s) marked cs)

-- The loop of the Subscribe callback: a service without a client is marked young, a timer is set to
-- mark it adult, and a client is built. The result is the services that are marked, and the clients.
unfoldable pub on_services :
    Bool
    → (Registration → Outcome (Unit {0}))
    → List Registration
    → Clients
    → Outcome (List Registration × Clients)
on_services has_dialer dial [] cs = ok ([], cs)
on_services has_dialer dial (s ∷ ss) cs = elim (Clients.get s.id cs) [
  | some c ↦ on_services has_dialer dial ss cs
  | none ↦ do
    (marked, cs') ← mark_and_build has_dialer dial state_young s cs
    (rest, cs'') ← on_services has_dialer dial ss cs'
    ok (marked ∷ rest, cs'')
]

-- The loop over the services that Find returns: each is marked adult and gets a client.
unfoldable pub on_found :
    Bool
    → (Registration → Outcome (Unit {0}))
    → List Registration
    → Clients
    → Outcome (List Registration × Clients)
on_found has_dialer dial [] cs = ok ([], cs)
on_found has_dialer dial (s ∷ ss) cs = do
  (marked, cs') ← mark_and_build has_dialer dial state_adult s cs
  (rest, cs'') ← on_found has_dialer dial ss cs'
  ok (marked ∷ rest, cs'')

-- No client of the list is a wxf.Service.
abbrev pub NoService : Clients → Type 0
NoService [] = Unit {0}
NoService ((id, c) ∷ cs) = (c.service ≡ none) × NoService cs

insert-NoService :
    (s : Registration) (id : Bytes) (cs : Clients)
    → NoService cs
    → NoService (insert id (tcp_client s) cs)
unfolding insert
insert-NoService s id [] h = (refl, tt)
insert-NoService s id ((k, c) ∷ cs) h = elim (Bool-cases (bytes_eq k id)) [
  | inl e ↦ rw e (refl, h.1)
  | inr e ↦ rw e (h.0, insert-NoService s id cs h.1)
]

dialled-NoService :
    (has_dialer : Bool) (connected : Outcome (Unit {0})) (s : Registration) (cs : Clients)
    → Clients.get s.id cs ≡ none
    → bytes_eq s.protocol (lit "tcp") ≡ true
    → NoService cs
    → NoService (build_client has_dialer connected s cs).1
unfolding build_client Clients.add
dialled-NoService false connected s cs e p h = rw (e, p, build_client) h
dialled-NoService true (ok u) s cs e p h = rw (e, p, build_client) (insert-NoService s s.id cs h)
dialled-NoService true (err reason) s cs e p h = rw (e, p, build_client) h
dialled-NoService true panicked s cs e p h = rw (e, p, build_client) h

build_client-NoService :
    (has_dialer : Bool) (connected : Outcome (Unit {0})) (s : Registration) (cs : Clients)
    → NoService cs
    → NoService (build_client has_dialer connected s cs).1
unfolding build_client
build_client-NoService has_dialer connected s cs h = elim (Option-cases (Clients.get s.id cs)) [
  | inr (c, e) ↦ rw (e, build_client) h
  | inl e ↦ elim (Bool-cases (bytes_eq s.protocol (lit "tcp"))) [
    | inr p ↦ rw (e, p, build_client) h
    | inl p ↦ dialled-NoService has_dialer connected s cs e p h
  ]
]

mark_and_build-NoService :
    (has_dialer : Bool) (dial : Registration → Outcome (Unit {0})) (state : Bytes)
    (s : Registration) (cs : Clients) (r : Registration × Clients)
    → NoService cs
    → mark_and_build has_dialer dial state s cs ≡ ok r
    → NoService r.1
unfolding mark_and_build
mark_and_build-NoService has_dialer dial state s cs r h e =
    let (marked, m, built) = >>=-eq-ok (with_state state s) _ e in
    dropped marked (build_client has_dialer (dial s) marked cs) built
      (build_client-NoService has_dialer (dial s) marked cs h)
  where
    dropped :
        (marked : Registration) (b : Outcome (Option Client) × Clients)
        → after_build marked b ≡ ok r
        → NoService b.1
        → NoService r.1
    dropped marked (ok built, cs') e h =
        let same : (marked, cs') ≡ r = ground (arith, e) in rw (← same) h
    dropped marked (err reason, cs') e h =
        let same : (marked, cs') ≡ r = ground (arith, e) in rw (← same) h
    dropped marked (panicked, cs') e h = cc

on_services-NoService :
    (has_dialer : Bool) (dial : Registration → Outcome (Unit {0})) (ss : List Registration)
    (cs : Clients) (r : List Registration × Clients)
    → NoService cs
    → on_services has_dialer dial ss cs ≡ ok r
    → NoService r.1
unfolding on_services
on_services-NoService has_dialer dial [] cs r h e =
    let same : ([], cs) ≡ r = ground (arith, e) in rw (← same) h
on_services-NoService has_dialer dial (s ∷ ss) cs r h e =
    elim (Option-cases (Clients.get s.id cs)) [
      | inr (c, known) ↦
          on_services-NoService has_dialer dial ss cs r h (rw (known, on_services) at e)
      | inl fresh ↦
          let (m, marked, e₁) =
            >>=-eq-ok (mark_and_build has_dialer dial state_young s cs) _
              (rw (fresh, on_services) at e) in
          let (t, rest, e₂) = >>=-eq-ok (on_services has_dialer dial ss m.1) _ e₁ in
          let same : (m.0 ∷ t.0, t.1) ≡ r = ground (arith, e₂) in
          rw (← same) (
            on_services-NoService has_dialer dial ss m.1 t
              (mark_and_build-NoService has_dialer dial state_young s cs m h marked) rest)
    ]

on_found-NoService :
    (has_dialer : Bool) (dial : Registration → Outcome (Unit {0})) (ss : List Registration)
    (cs : Clients) (r : List Registration × Clients)
    → NoService cs
    → on_found has_dialer dial ss cs ≡ ok r
    → NoService r.1
unfolding on_found
on_found-NoService has_dialer dial [] cs r h e =
    let same : ([], cs) ≡ r = ground (arith, e) in rw (← same) h
on_found-NoService has_dialer dial (s ∷ ss) cs r h e =
    let (m, marked, e₁) = >>=-eq-ok (mark_and_build has_dialer dial state_adult s cs) _ e in
    let (t, rest, e₂) = >>=-eq-ok (on_found has_dialer dial ss m.1) _ e₁ in
    let same : (m.0 ∷ t.0, t.1) ≡ r = ground (arith, e₂) in
    rw (← same) (
      on_found-NoService has_dialer dial ss m.1 t
        (mark_and_build-NoService has_dialer dial state_adult s cs m h marked) rest)

range_services-panicked :
    (keeps : Service → Bool) (cs : Clients)
    → NoService cs
    → cs ≢ []
    → range_services keeps cs ≡ panicked
unfolding range_services
range_services-panicked keeps [] h some_client = elim (some_client refl) [ ]
range_services-panicked keeps ((id, c) ∷ cs) h some_client = rw (h.0) refl

abbrev pub adult : Service → Bool
adult s = bytes_eq (Clients.meta_at s.meta key_service_state) state_adult

-- The clients that connectToService builds from what the registry reports and finds.
unfoldable pub connected_clients :
    Bool
    → (Registration → Outcome (Unit {0}))
    → List Registration
    → List Registration
    → Outcome Clients
connected_clients has_dialer dial watched found = do
  (young, cs) ← on_services has_dialer dial watched []
  (adult, cs') ← on_found has_dialer dial found cs
  ok cs'

connected_clients-NoService :
    (has_dialer : Bool) (dial : Registration → Outcome (Unit {0}))
    (watched found : List Registration) (cs : Clients)
    → connected_clients has_dialer dial watched found ≡ ok cs
    → NoService cs
unfolding connected_clients
connected_clients-NoService has_dialer dial watched found cs e =
    let (m, first, e₁) = >>=-eq-ok (on_services has_dialer dial watched []) _ e in
    let (t, second, e₂) = >>=-eq-ok (on_found has_dialer dial found m.1) _ e₁ in
    let same : t.1 ≡ cs = ground (arith, e₂) in
    rw (← same) (
      on_found-NoService has_dialer dial found m.1 t
        (on_services-NoService has_dialer dial watched [] m tt first) second)

-- Where the clients of a service are those that connectToService has built, one at least, looking
-- the service up panics whatever the header.
pub connected-unroutable :
    (r : Routes) (name : Bytes) (h : Header) (has_dialer : Bool)
    (dial : Registration → Outcome (Unit {0})) (watched found : List Registration) (cs : Clients)
    → connected_clients has_dialer dial watched found ≡ ok cs
    → cs ≢ []
    → Assoc.lookup name r.srv_clients ≡ some cs
    → lookup r name h r.selector ≡ panicked
unfolding lookup Clients.services
connected-unroutable r name h has_dialer dial watched found cs built some_client known =
    let clients = connected_clients-NoService has_dialer dial watched found cs built in
    let fails = range_services-panicked adult cs clients some_client in rw (known, fails) refl

-- Without a client there is no service to send to.
pub unconnected-unroutable :
    (r : Routes) (name : Bytes) (h : Header)
    → Assoc.lookup name r.srv_clients ≡ some []
    → lookup r name h r.selector ≡ err no_services
unfolding lookup Clients.services range_services
unconnected-unroutable r name h known = rw known refl

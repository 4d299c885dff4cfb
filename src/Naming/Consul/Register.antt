-- ===== src/Naming/Consul/Register.antt =====
-- Register of wxf/naming/consul/naming.go, and what load finds of a service that was registered.
use wxf_im.Prelude.{
  ℕ, ◌≡◌, refl, ap, ◌∙◌, true, false, Option, none, some, List, [], ◌∷◌, ◌++◌, arith, ◌==◌,
  if◌then◌else◌, length, Bytes, lit, bytes_eq, bytes_eq_refl, Outcome, ok,
}
use wxf_im.Prelude.Assoc.{Assoc, lookup, insert, lookup-insert}
use wxf_im.Naming.{Registration, dial_url}
use wxf_im.Naming.Consul.{
  Entry, key_protocol, text_or_empty, meta_or_empty, registration_of, passing_services, load, find,
}

-- api.AgentServiceCheck, in the fields that Register sets.
pub record AgentServiceCheck : Type 0 where
  pub check_id : Bytes
  pub http : Bytes
  pub timeout : Bytes
  pub interval : Bytes
  pub deregister_after : Bytes

-- api.AgentServiceRegistration, in the fields that Register sets.
pub record AgentService : Type 0 where
  pub id : Bytes
  pub name : Bytes
  pub tags : List Bytes
  pub port : ℕ
  pub address : Bytes
  pub meta : Assoc Bytes
  pub check : Option AgentServiceCheck

-- KeyHealthURL
abbrev pub key_health_url : Bytes
key_health_url = lit "health_url"

-- The health check of a service whose metadata names a URL for it.
abbrev pub health_check : Registration → Option AgentServiceCheck
health_check s =
    let health_url = meta_or_empty key_health_url s.meta in
    if length health_url == 0
    then none
    else some (record {
      check_id = s.id ++ lit "_normal";
      http = health_url;
      timeout = lit "1s";
      interval = lit "10s";
      deregister_after = lit "20s";
    })

-- What Register hands to the agent. The protocol goes into the service's own map where that is
-- not nil.
unfoldable pub agent_service : Registration → AgentService
agent_service s = record {
  id = s.id;
  name = s.name;
  tags = s.tags;
  port = s.port;
  address = s.address;
  meta = insert key_protocol s.protocol s.meta;
  check = health_check s;
}

-- Register(s), given what ServiceRegister of the agent returns for a registration.
unfoldable pub register : (AgentService → Outcome (Unit {0})) → Registration → Outcome (Unit {0})
register service_register s = service_register (agent_service s)

-- The catalog shows a service by the fields that it was registered with.
abbrev pub IsShown : AgentService → Entry → Type 0
IsShown a e =
    (e.service_id ≡ a.id)
    × (e.service_name ≡ a.name)
    × (e.service_address ≡ a.address)
    × (e.service_port ≡ a.port)
    × (e.service_tags ≡ a.tags)
    × (e.service_meta ≡ a.meta)

passing_services-append :
    (es ds : List Entry) → passing_services (es ++ ds) ≡ passing_services es ++ passing_services ds
unfolding passing_services
passing_services-append [] ds = refl
passing_services-append (e ∷ es) ds = ground (arith, passing_services-append es ds)

meta_protocol :
    (protocol : Bytes) (meta : Assoc Bytes)
    → meta_or_empty key_protocol (insert key_protocol protocol meta) ≡ protocol
meta_protocol protocol meta = ap text_or_empty (
    lookup-insert key_protocol key_protocol protocol meta
    ∙ ap (λ b. if b then some protocol else lookup key_protocol meta) (bytes_eq_refl key_protocol))

meta_other :
    (protocol key : Bytes) (meta : Assoc Bytes)
    → bytes_eq key_protocol key ≡ false
    → lookup key (insert key_protocol protocol meta) ≡ lookup key meta
meta_other protocol key meta other = rw (lookup-insert key_protocol key protocol meta, other) refl

-- A healthy service of the catalog that shows what Register handed to the agent is found, among
-- the others in their order, as a service with the registered identifier and protocol and the
-- same URL to dial; any metadata but the protocol's is as it was registered.
pub find-agent_service :
    (s : Registration) (e : Entry) (before after : List Entry) (last_index : ℕ) (key : Bytes)
    → IsShown (agent_service s) e
    → e.passing ≡ true
    → bytes_eq key_protocol key ≡ false
    → let found = registration_of e in
      (find (ok (before ++ e ∷ after, last_index))
        ≡ ok (passing_services before ++ found ∷ passing_services after))
      × (dial_url found ≡ dial_url s)
      × (found.id ≡ s.id)
      × (found.protocol ≡ s.protocol)
      × (lookup key found.meta ≡ lookup key s.meta)
unfolding agent_service find load dial_url passing_services
find-agent_service s e before after last_index key (i, n, a, p, t, m) passes other = (
  rw (passing_services-append before (e ∷ after), passes) refl,
  rw (a, p, m, meta_protocol s.protocol s.meta) refl,
  i,
  rw m (meta_protocol s.protocol s.meta),
  rw m (meta_other s.protocol key s.meta other),
)

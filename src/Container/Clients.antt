-- ===== src/Container/Clients.antt =====
-- wxf/container/clients.go: the clients of one service, by their id. sync.Map's Range goes through
-- the entries in an order of its own; the model takes the order of the association list.
use wxf_im.Prelude.{
  Bool, true, Option, none, some, List, [], ◌∷◌, if◌then◌else◌, Bytes, bytes_eq, Outcome, ok,
  panicked, ◌>>=◌,
}
use wxf_im.Prelude.Assoc.{Assoc, lookup, insert, delete}

-- wxf.Service
pub record Service : Type 0 where
  pub service_id : Bytes
  pub service_name : Bytes
  pub meta : Assoc Bytes

-- A wxf.Client: its id and name, and its methods as a wxf.Service if its type has them.
pub record Client : Type 0 where
  pub id : Bytes
  pub name : Bytes
  pub service : Option Service

abbrev pub Clients : Type 0
Clients = Assoc Client

-- Add: an empty id is reported to the log and stored all the same.
unfoldable pub add : Client → Clients → Clients
add client cs = insert client.id client cs

-- Remove
unfoldable pub remove : Bytes → Clients → Clients
remove id cs = delete id cs

-- Get
unfoldable pub get : Bytes → Clients → Option Client
get id cs = lookup id cs

-- m[key] of a map[string]string: "" where the key is missing.
abbrev pub meta_at : Assoc Bytes → Bytes → Bytes
meta_at m key = elim (lookup key m) [ none ↦ [] | some v ↦ v ]

-- What the Range of Services keeps, of all entries or of those with `value` under `key`. The type
-- assertion panics at a client that is no wxf.Service.
unfoldable pub range_services : (Service → Bool) → Clients → Outcome (List Service)
range_services keeps [] = ok []
range_services keeps ((id, c) ∷ cs) =
    let rest = range_services keeps cs in
    elim c.service [
      | none ↦ panicked
      | some s ↦ if keeps s then rest >>= (λ ss. ok (s ∷ ss)) else rest
    ]

-- Services(kvs...): an argument list of another length than 0 or 2 selects none.
unfoldable pub services : List Bytes → Clients → Outcome (List Service)
unfolding range_services
services [] cs = range_services (λ s. true) cs
services (key ∷ []) cs = ok []
services (key ∷ value ∷ []) cs = range_services (λ s. bytes_eq (meta_at s.meta key) value) cs
services (key ∷ value ∷ more ∷ rest) cs = ok []

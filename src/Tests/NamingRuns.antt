-- ===== src/Tests/NamingRuns.antt =====
-- wxf/naming/consul/naming.go
use wxf_im.Prelude.{◌≡◌, refl, true, false, [], ◌∷◌, lit, Error, err, ◌++◌, bytes_eq, ok}
use wxf_im.Prelude.Assoc.{lookup}
use wxf_im.Naming.Consul.{Watching, Round, watch_loop, watch_deaf}
use wxf_im.Naming.{Registration, new_entry, dial_url}
use wxf_im.Naming.Consul.{Entry, find, registration_of, passing_services}
use wxf_im.Naming.Consul.Register.{AgentService, agent_service, find-agent_service}

abbrev failing : Round
failing = record { query = err (Error.external 3); quit = true }

abbrev watching : Watching
watching = record { wait_index = 5; stopped = false; calls = [] }

watch_deaf_example : watch_loop (failing ∷ failing ∷ []) watching ≡ watching
watch_deaf_example =
    watch_deaf (failing ∷ failing ∷ []) watching
      ((Error.external 3, refl), ((Error.external 3, refl), tt))

-- A service with metadata, and the catalog's entry for it.
abbrev chat : Registration
chat = record (new_entry (lit "c1") (lit "chat") (lit "tcp") (lit "10.0.0.1") 8005) {
  has_meta = true;
  meta = (lit "zone", lit "z") ∷ [];
}

abbrev shown : AgentService → Entry
shown a = record {
  service_id = a.id;
  service_name = a.name;
  service_address = a.address;
  service_port = a.port;
  service_tags = a.tags;
  has_meta = true;
  service_meta = a.meta;
  passing = true;
}

abbrev chat_entry : Entry
chat_entry = shown (agent_service chat)

abbrev ill : Entry
ill = record chat_entry { service_id = lit "c0"; passing = false }

find-agent_service_example :
    (find (ok (ill ∷ chat_entry ∷ [], 3))
      ≡ ok (passing_services (ill ∷ []) ++ registration_of chat_entry ∷ []))
    × (dial_url (registration_of chat_entry) ≡ dial_url chat)
    × ((registration_of chat_entry).id ≡ chat.id)
    × ((registration_of chat_entry).protocol ≡ chat.protocol)
    × (lookup (lit "zone") (registration_of chat_entry).meta ≡ lookup (lit "zone") chat.meta)
unfolding bytes_eq passing_services
find-agent_service_example =
    find-agent_service chat chat_entry (ill ∷ []) [] 3 (lit "zone")
      (refl, refl, refl, refl, refl, refl) refl refl

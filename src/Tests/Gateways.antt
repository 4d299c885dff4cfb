-- ===== src/Tests/Gateways.antt =====
-- A gateway that has a client of one adult instance of the service "chat".
use wxf_im.Prelude.{◌≡◌, refl, some, [], ◌∷◌, lit, bytes_eq, ok}
use wxf_im.Prelude.Assoc
use wxf_im.Wire.Pkt.Message.{Header}
use wxf_im.Container.{key_service_state, state_adult}
use wxf_im.Container.Clients
use wxf_im.Container.Clients.{Client, Service}
use wxf_im.Container.Forward.{Routes, lookup}

abbrev pub chat_service : Service
chat_service = record {
  service_id = lit "chat1";
  service_name = lit "chat";
  meta = (key_service_state, state_adult) ∷ [];
}

abbrev pub chat_client : Client
chat_client = record { id = lit "chat1"; name = lit "chat"; service = some chat_service }

abbrev pub routes : Routes
routes = record {
  service_id = lit "gate1";
  srv_clients = (lit "chat", (lit "chat1", chat_client) ∷ []) ∷ [];
  selector = λ h ss. ok (lit "chat1");
}

pub chat_found : (h : Header) → lookup routes (lit "chat") h routes.selector ≡ ok chat_client
unfolding lookup Clients.services Clients.get Assoc.lookup bytes_eq
chat_found h = refl

-- ===== src/Tests/ContainerRuns.antt =====
-- wxf/container
use wxf_im.Prelude.{
  none, ◌≡◌, refl, ◌≢◌, true, false, some, List, [], ◌∷◌, Bytes, lit, bytes_eq, ok, panicked,
}
use wxf_im.Prelude.Assoc
use wxf_im.Prelude.Assoc.{Assoc}
use wxf_im.Wire.Pkt.Message.{Header, Codec, empty_header, Header-discrete}
use wxf_im.Wire.Pkt.Logic.{LogicPkt, add_string_meta}
use wxf_im.Wire.Pkt.Packet.{logic, marshal}
use wxf_im.Naming.{Registration, new_entry}
use wxf_im.Container.{key_service_state, state_adult, meta_dest_server}
use wxf_im.Container.Clients
use wxf_im.Container.Clients.{Client, Clients, Service, meta_at}
use wxf_im.Container.Selector.{hash_code, hash_select}
use wxf_im.Container.Forward.{Routes, lookup, forward, forward_with_selector}
use wxf_im.Conn.{Frame, op_binary}
use wxf_im.Gateway.Handler.{Login, accept}
use wxf_im.Gateway.Handler.Unrouted.{nobody_admitted}
use wxf_im.Container.Lifecycle.{
  Container, Call, Stages, inits, starts, shuts, successes, successes-Stages,
}
use wxf_im.Container.Connect.{
  tcp_client, build_client, mark_and_build, on_found, on_services, connected_clients,
  connected-unroutable,
}
use wxf_im.Tests.Codecs.{only}

abbrev container : Container
container = record {
  state = 0;
  has_naming = true;
  deps = [];
  has_clients = false;
  service_id = lit "gate1";
  public_address = lit "localhost";
  public_port = 8000;
}

abbrev calls : List Call
calls = starts ∷ inits (lit "chat" ∷ []) ∷ shuts ∷ starts ∷ inits [] ∷ shuts ∷ []

successes-Stages_example : Stages 0 (successes container calls)
successes-Stages_example = successes-Stages container calls

abbrev chat_service : Service
chat_service = record {
  service_id = lit "chat1";
  service_name = lit "chat";
  meta = (key_service_state, state_adult) ∷ [];
}

abbrev chat_client : Client
chat_client = record { id = lit "chat1"; name = lit "chat"; service = some chat_service }

abbrev chat_clients : Clients
chat_clients = (lit "chat1", chat_client) ∷ []

abbrev routes : Routes
routes = record {
  service_id = lit "gate1";
  srv_clients = (lit "chat", chat_clients) ∷ [];
  selector = hash_select;
}

abbrev talk : LogicPkt
talk = record {
  header = record empty_header { command = lit "chat.talk"; channel_id = lit "c" };
  body = [];
}

abbrev codec : Codec Header
codec = only Header-discrete empty_header []

abbrev forwarded : Bytes
forwarded = marshal codec (logic (add_string_meta talk meta_dest_server (lit "gate1")))

-- The packet is sent to the one adult instance.
forward_runs : forward codec routes (lit "chat") (some talk) ≡ ok (chat_client, forwarded)
unfolding forward forward_with_selector lookup Clients.services hash_select hash_code Clients.get
    Assoc.lookup bytes_eq
forward_runs = refl

abbrev instance_of_chat : Registration
instance_of_chat =
    record (new_entry (lit "chat1") (lit "chat") (lit "tcp") (lit "localhost") 8005) {
      has_meta = true;
      meta = (lit "protocol", lit "tcp") ∷ [];
    }

abbrev built : Clients
built = (lit "chat1", tcp_client instance_of_chat) ∷ []

abbrev connected_routes : Routes
connected_routes = record {
  service_id = lit "gate1";
  srv_clients = (lit "chat", built) ∷ [];
  selector = hash_select;
}

built-connected :
    connected_clients true (λ s. ok tt) (instance_of_chat ∷ []) (instance_of_chat ∷ []) ≡ ok built
unfolding connected_clients mark_and_build build_client on_found on_services Clients.get Clients.add
    Assoc.lookup Assoc.insert bytes_eq new_entry
built-connected = refl

connected-unroutable_example :
    lookup connected_routes (lit "chat") empty_header hash_select ≡ panicked
unfolding Assoc.lookup bytes_eq
connected-unroutable_example =
    connected-unroutable connected_routes (lit "chat") empty_header true (λ s. ok tt)
      (instance_of_chat ∷ []) (instance_of_chat ∷ []) built built-connected (λ e. cc e) refl

abbrev login_codecs : Login
login_codecs = record {
  service_id = lit "gate1";
  header = record { marshal = λ h. none; unmarshal = λ bs. none };
  login_req = record { marshal = λ m. none; unmarshal = λ bs. none };
  session = record { marshal = λ m. none; unmarshal = λ bs. none };
  decoder = λ secret text. none;
  now = 50;
  remote_addr = lit "10.0.0.7:4711";
}

abbrev some_frame : Frame
some_frame = record { op_code = op_binary; payload = 1 ∷ [] }

nobody_admitted_example :
    (accept connected_routes login_codecs (ok some_frame) 1).result ≢ ok (lit "gate1_ann_2")
unfolding Assoc.lookup bytes_eq
nobody_admitted_example =
    nobody_admitted connected_routes login_codecs some_frame 1 (lit "gate1_ann_2") (record {
      has_dialer = true;
      dial = λ s. ok tt;
      watched = instance_of_chat ∷ [];
      found = instance_of_chat ∷ [];
      clients = built;
      built = built-connected;
      known = refl;
    })

abbrev two_services : List Service
two_services =
    record { service_id = lit "chat1"; service_name = lit "chat"; meta = [] }
    ∷ record { service_id = lit "chat2"; service_name = lit "chat"; meta = [] }
    ∷ []

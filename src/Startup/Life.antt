-- ===== src/Startup/Life.antt =====
-- What starts, and what shutdown of wxf/container/container.go undoes.
use wxf_im.Prelude.{
  ◌≡◌, refl, false, [], ◌∷◌, ◌++◌, arith, ◌==◌, length, Bytes, lit, bytes_eq, Outcome, ok, err,
  >>=-eq-ok, has_closed,
}
use wxf_im.Container.Lifecycle.{
  Container, start_server, register, shutdown_server, connect, deregister, unsubscribe, init, start,
  shutdown, add_deps,
}
use wxf_im.Startup.{Config, filled_in, text_or, without_dots, init_config, from_file, run_gateway}

-- A container that nothing was done to.
abbrev pub fresh : Container
fresh = record {
  state = 0;
  has_naming = false;
  deps = [];
  has_clients = false;
  service_id = [];
  public_address = [];
  public_port = 0;
}

text_or-some :
    (other text : Bytes) → (length other == 0) ≡ false → (length (text_or other text) == 0) ≡ false
text_or-some other [] h = h
text_or-some other (b ∷ bs) h = ground arith

some_is_not_empty : (bs : Bytes) → (length bs == 0) ≡ false → bytes_eq bs [] ≡ false
unfolding bytes_eq
some_is_not_empty [] h = cc h
some_is_not_empty (b ∷ bs) h = refl

init_config-filled_in :
    (processed : Outcome Config) (read_in : Outcome (Unit {0}))
    (unmarshal : Config → Outcome Config) (local_ip : Bytes) (config : Config)
    → init_config processed read_in unmarshal local_ip ≡ ok config
    → (config' : Config) × (config ≡ filled_in local_ip config')
unfolding init_config
init_config-filled_in processed read_in unmarshal local_ip config inited =
    let (first, e, next) = >>=-eq-ok processed _ inited in
    let (second, e', last) = >>=-eq-ok (from_file read_in unmarshal first) _ next in
    (second, cc last)

-- A configuration that Init returns has a service id, and a public address if the machine has one.
pub init_config_complete :
    (processed : Outcome Config) (read_in : Outcome (Unit {0}))
    (unmarshal : Config → Outcome Config) (local_ip : Bytes) (config : Config)
    → init_config processed read_in unmarshal local_ip ≡ ok config
    → (length local_ip == 0) ≡ false
    → ((length config.service_id == 0) ≡ false) × ((length config.public_address == 0) ≡ false)
init_config_complete processed read_in unmarshal local_ip config inited ip =
    let (config', e) = init_config-filled_in processed read_in unmarshal local_ip config inited in
    rw e (
      text_or-some (lit "server_" ++ without_dots local_ip) config'.service_id (ground arith),
      text_or-some local_ip config'.public_address ip,
    )

-- A gateway that RunServerStart starts with the protocol "ws", on a fresh container, where Init
-- returns a configuration with a public port, the machine has an IP address and the registry's
-- client is made: the server is started, the only dependency connected, since the two it names
-- have one value, and the service registered under an id that is not empty; shutdown takes back
-- what Start did, under the same id, and does it once.
pub run_gateway-life :
    (processed : Outcome Config) (read_in : Outcome (Unit {0}))
    (unmarshal : Config → Outcome Config) (local_ip : Bytes) (config : Config)
    → init_config processed read_in unmarshal local_ip ≡ ok config
    → (length local_ip == 0) ≡ false
    → (config.public_port == 0) ≡ false
    → let up =
        run_gateway (lit "ws") (init_config processed read_in unmarshal local_ip) (ok tt) fresh in
      (up.0 ≡ ok (start_server ∷ connect (lit "chat") ∷ register ∷ []))
      × ((length config.service_id == 0) ≡ false)
      × ((shutdown up.1).0
          ≡ ok (shutdown_server ∷ deregister config.service_id ∷ unsubscribe (lit "chat") ∷ []))
      × ((shutdown (shutdown up.1).1).0 ≡ err has_closed)
unfolding init_config run_gateway init start shutdown add_deps bytes_eq
run_gateway-life processed read_in unmarshal local_ip config inited ip port =
    let (named, reachable) =
      init_config_complete processed read_in unmarshal local_ip config inited ip in
    rw inited (rw (some_is_not_empty config.public_address reachable, port) refl, named, refl, refl)

-- ===== src/Startup.antt =====
-- wxf/services/server/conf/config.go and wxf/net.go: the configuration of a service;
-- RunServerStart of wxf/services/gateway/server.go, wxf/services/server/server.go and
-- wxf/tcp/server.go. viper, envconfig and the interfaces of the machine are parameters.
pub mod Life
use wxf_im.Prelude.{
  ℕ, ◌+◌, Bool, true, not, ◌&&◌, List, [], ◌∷◌, ◌++◌, ◌==◌, if◌then◌else◌, length, keep, Bytes, lit,
  bytes_eq, Outcome, ok, err, panicked, ◌>>=◌, ◌>>◌,
}
use wxf_im.Container.Lifecycle.{Container, Effect, init, start}
use wxf_im.Gateway.Handler.{sn_login}

-- An address of net.InterfaceAddrs(): whether it is a *net.IPNet, loopback and IPv4, and its text.
pub record Address : Type 0 where
  pub is_ip_net : Bool
  pub is_loopback : Bool
  pub is_v4 : Bool
  pub text : Bytes

-- GetLocalIP(), given what net.InterfaceAddrs() returns
unfoldable pub first_v4 : List Address → Bytes
first_v4 [] = []
first_v4 (a ∷ rest_of) =
    let rest = first_v4 rest_of in
    if a.is_ip_net && not a.is_loopback && a.is_v4 then a.text else rest

abbrev pub get_local_ip : Outcome (List Address) → Bytes
get_local_ip (ok addresses) = first_v4 addresses
get_local_ip _ = []

-- Config
pub record Config : Type 0 where
  pub service_id : Bytes
  pub service_name : Bytes
  pub listen : Bytes
  pub monitor_port : ℕ
  pub public_address : Bytes
  pub public_port : ℕ
  pub tags : List Bytes
  pub consul_url : Bytes

-- strings.ReplaceAll(ip, ".", "")
abbrev pub without_dots : Bytes → Bytes
without_dots ip = keep (λ b. not (b == b'.')) ip

abbrev pub text_or : Bytes → Bytes → Bytes
text_or other text = if length text == 0 then other else text

-- The two fields that Init fills in where they are empty.
abbrev pub filled_in : Bytes → Config → Config
filled_in local_ip config = record config {
  service_id = text_or (lit "server_" ++ without_dots local_ip) config.service_id;
  public_address = text_or local_ip config.public_address;
}

-- viper.Unmarshal, where viper.ReadInConfig() has found the file: its error is only logged.
abbrev pub from_file : Outcome (Unit {0}) → (Config → Outcome Config) → Config → Outcome Config
from_file (ok u) unmarshal config = unmarshal config
from_file (err e) unmarshal config = ok config
from_file panicked unmarshal config = panicked

-- Init(file), given what envconfig.Process, viper.ReadInConfig and viper.Unmarshal make
unfoldable pub init_config :
    Outcome Config → Outcome (Unit {0}) → (Config → Outcome Config) → Bytes → Outcome Config
init_config processed read_in unmarshal local_ip = do
  config ← processed
  config' ← from_file read_in unmarshal config
  ok (filled_in local_ip config')

-- The container once it has its server: what it reads of it comes from the configuration.
abbrev pub served_by : Config → Container → Container
served_by config c = record c {
  service_id = config.service_id;
  public_address = config.public_address;
  public_port = config.public_port;
}

-- container.Init(srv, deps...), which sets the server where it succeeds.
abbrev pub set_server :
    Config → Outcome (List Effect) × Container → Outcome (List Effect) × Container
set_server config (ok es, c) = (ok es, served_by config c)
set_server config (err e, c) = (err e, c)
set_server config (panicked, c) = (panicked, c)

abbrev pub set_service_naming : Container → Container
set_service_naming c = record c { has_naming = true }

-- What follows container.Init: consul.NewNaming, by what it returns, and container.Start.
abbrev pub after_naming : Outcome (Unit {0}) → Container → Outcome (List Effect) × Container
after_naming (ok u) c = start (set_service_naming c)
after_naming (err e) c = (err e, c)
after_naming panicked c = (panicked, c)

abbrev pub after_init :
    Outcome (Unit {0}) → Outcome (List Effect) × Container → Outcome (List Effect) × Container
after_init naming (ok es, c) = after_naming naming c
after_init naming (err e, c) = (err e, c)
after_init naming (panicked, c) = (panicked, c)

-- SNChat, which has the value of SNLogin.
abbrev pub sn_chat : Bytes
sn_chat = lit "chat"

-- opts.protocol == "ws": only then there is a server; its first method panics otherwise.
abbrev pub has_server : Bytes → Bool
has_server protocol = bytes_eq protocol (lit "ws")

-- RunServerStart of wxf/services/gateway up to the wait for a signal, given what Init and
-- NewNaming return.
unfoldable pub run_gateway :
    Bytes → Outcome Config → Outcome (Unit {0}) → Container → Outcome (List Effect) × Container
run_gateway protocol (ok config) naming c =
    if has_server protocol
    then after_init naming (set_server config (init (sn_chat ∷ sn_login ∷ []) c))
    else (panicked, c)
run_gateway protocol (err e) naming c = (err e, c)
run_gateway protocol panicked naming c = (panicked, c)

-- RunServerStart of wxf/tcp, which drops the error of container.Init.
unfoldable pub run_tcp_gateway :
    Bytes → Outcome Config → Outcome (Unit {0}) → Container → Outcome (List Effect) × Container
run_tcp_gateway protocol (ok config) naming c =
    if has_server protocol
    then after_naming naming (set_server config (init (sn_chat ∷ sn_login ∷ []) c)).1
    else (panicked, c)
run_tcp_gateway protocol (err e) naming c = (err e, c)
run_tcp_gateway protocol panicked naming c = (panicked, c)

-- RunServerStart of wxf/services/server: a server over TCP, and no dependencies.
unfoldable pub run_logic_server :
    Outcome Config → Outcome (Unit {0}) → Container → Outcome (List Effect) × Container
run_logic_server (ok config) naming c = after_init naming (set_server config (init [] c))
run_logic_server (err e) naming c = (err e, c)
run_logic_server panicked naming c = (panicked, c)

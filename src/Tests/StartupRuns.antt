-- ===== src/Tests/StartupRuns.antt =====
-- wxf/services/server/conf/config.go and wxf/services/gateway/server.go
use wxf_im.Prelude.{◌≡◌, refl, false, [], ◌∷◌, ◌==◌, length, Bytes, lit, Error, ok, err, has_closed}
use wxf_im.Container.Lifecycle.{
  start_server, register, shutdown_server, connect, deregister, unsubscribe, shutdown,
}
use wxf_im.Startup.{Config, filled_in, init_config, run_gateway}
use wxf_im.Startup.Life.{fresh, run_gateway-life}

abbrev defaults : Config
defaults = record {
  service_id = [];
  service_name = lit "gateway";
  listen = lit ":8005";
  monitor_port = 8006;
  public_address = [];
  public_port = 8005;
  tags = [];
  consul_url = [];
}

abbrev local_ip : Bytes
local_ip = lit "10.0.0.7"

abbrev config : Config
config = filled_in local_ip defaults

run_gateway-life_example :
    let up =
      run_gateway
        (lit "ws")
        (init_config (ok defaults) (err Error.eof) (λ c. ok c) local_ip)
        (ok tt)
        fresh in
    (up.0 ≡ ok (start_server ∷ connect (lit "chat") ∷ register ∷ []))
    × ((length config.service_id == 0) ≡ false)
    × ((shutdown up.1).0
        ≡ ok (shutdown_server ∷ deregister config.service_id ∷ unsubscribe (lit "chat") ∷ []))
    × ((shutdown (shutdown up.1).1).0 ≡ err has_closed)
unfolding init_config
run_gateway-life_example =
    run_gateway-life (ok defaults) (err Error.eof) (λ c. ok c) local_ip config refl refl refl

-- ===== src/Container/Forward.antt =====
-- Forward, ForwardWithSelector and lookup of wxf/container/container.go: a packet on its way from a
-- gateway to a logic service. `cli.Send` is the last call, so the result is the client and what it
-- is given to send; protobuf's header codec is a parameter.
pub mod Routing
use wxf_im.Prelude.{
  not, Option, none, some, List, [], ◌∷◌, ◌==◌, length, Bytes, bytes_eq, Outcome, ok, err, ◌>>=◌,
  ◌>>◌, guard, or_fail, packet_nil, command_empty, channel_id_empty, service_not_found, no_services,
  no_client,
}
use wxf_im.Prelude.Assoc
use wxf_im.Prelude.Assoc.{Assoc}
use wxf_im.Wire.Pkt.Message.{Header, Codec}
use wxf_im.Wire.Pkt.Logic.{LogicPkt, add_string_meta}
use wxf_im.Wire.Pkt.Packet.{logic, marshal}
use wxf_im.Container.{meta_dest_server, key_service_state, state_adult}
use wxf_im.Container.Clients
use wxf_im.Container.Clients.{Client, Clients, Service}

-- A Selector's Lookup.
abbrev pub Selector : Type 0
Selector = Header → List Service → Outcome Bytes

-- The fields of Container that routing reads: Srv.ServiceID(), srvClients and selector.
pub record Routes : Type 0 where
  pub service_id : Bytes
  pub srv_clients : Assoc Clients
  pub selector : Selector

-- lookup(serviceName, header, selector)
unfoldable pub lookup : Routes → Bytes → Header → Selector → Outcome Client
lookup r name header selector = do
  clients ← or_fail (Assoc.lookup name r.srv_clients) service_not_found
  srvs ← Clients.services (key_service_state ∷ state_adult ∷ []) clients
  guard (not (length srvs == 0)) no_services
  id ← selector header srvs
  or_fail (Clients.get id clients) no_client

module _ (codec : Codec Header) where
  -- ForwardWithSelector(serviceName, packet, selector)
  unfoldable pub forward_with_selector :
      Routes → Bytes → LogicPkt → Selector → Outcome (Client × Bytes)
  forward_with_selector r name packet selector = do
    cli ← lookup r name packet.header selector
    ok (cli, marshal codec (logic (add_string_meta packet meta_dest_server r.service_id)))

  forward_packet : Routes → Bytes → LogicPkt → Outcome (Client × Bytes)
  forward_packet r name packet = do
    guard (not (bytes_eq packet.command [])) command_empty
    guard (not (bytes_eq packet.channel_id [])) channel_id_empty
    forward_with_selector r name packet r.selector

  -- Forward(serviceName, packet); `none` is the nil packet.
  unfoldable pub forward : Routes → Bytes → Option LogicPkt → Outcome (Client × Bytes)
  unfolding forward_packet
  forward r name none = err packet_nil
  forward r name (some packet) = forward_packet r name packet

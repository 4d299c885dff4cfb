-- ===== src/Container.antt =====
-- wxf/container: the service process around a server: its life cycle, its clients of other services
-- and the routing of packets between gateways and logic services.
pub mod Clients
pub mod Selector
pub mod Forward
pub mod Push
pub mod Lifecycle
pub mod Connect
use wxf_im.Prelude.{Bytes, lit}

abbrev pub meta_dest_server : Bytes
meta_dest_server = lit "dest.server"

abbrev pub meta_dest_channels : Bytes
meta_dest_channels = lit "dest.channels"

abbrev pub key_service_state : Bytes
key_service_state = lit "service_state"

abbrev pub state_young : Bytes
state_young = lit "young"

abbrev pub state_adult : Bytes
state_adult = lit "adult"

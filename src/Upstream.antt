-- ===== src/Upstream.antt =====
-- Packets between the logic service, Receive and RespErr of wxf/services/server/serv/handler.go, and
-- the gateway, Forward and readLoop of wxf/container/container.go.
pub mod Crash
pub mod Spoof
use wxf_im.Prelude.{Bytes}
use wxf_im.Wire.Pkt.Logic.{LogicPkt, add_string_meta}
use wxf_im.Container.{meta_dest_server}
use wxf_im.Container.Forward.{Routes}
use wxf_im.Gateway.Handler.{with_channel_id}

-- The packet that goes from the gateway to the logic service: under the channel id of the user's
-- connection, and with the gateway's id.
abbrev pub forwarded : Routes → Bytes → LogicPkt → LogicPkt
forwarded routes user p =
    add_string_meta (with_channel_id p user) meta_dest_server routes.service_id

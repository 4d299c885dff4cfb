-- ===== src/LogicServer/Dispatcher.antt =====
-- ServerDispatcher of wxf/services/server/serv/handler.go.
use wxf_im.Prelude.{List, Bytes, join}
use wxf_im.Wire.Pkt.Message.{Header, Codec}
use wxf_im.Wire.Pkt.Logic.{LogicPkt, add_string_meta}
use wxf_im.Container.{meta_dest_channels}
use wxf_im.Container.Push.{Pushed, push}

-- (h *ServerDispatcher) Push(gateway, channels, p)
unfoldable pub dispatcher_push : Codec Header → Bytes → List Bytes → LogicPkt → Pushed
dispatcher_push codec gateway channels p =
    push codec gateway (add_string_meta p meta_dest_channels (join b',' channels))

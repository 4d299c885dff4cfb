-- ===== src/Container/Push.antt =====
-- Push, pushMessage and readLoop of wxf/container/container.go: a packet on its way from a logic
-- service to the channels of a gateway. A call of Srv.Push is an entry of the result: the channel
-- and the payload; its error is only logged.
use wxf_im.Prelude.{
  Bool, false, Option, some, List, [], ◌∷◌, ◌++◌, ◌==◌, if◌then◌else◌, Bytes, bytes_eq, split,
  Outcome, ok, err, panicked, ◌>>=◌, ◌>>◌, guard, or_fail, dest_server_incorrect, dest_channels_nil,
}
use wxf_im.Wire.Pkt.Message.{Header, Codec}
use wxf_im.Wire.Pkt.Meta.{MetaValue, string_value}
use wxf_im.Wire.Pkt.Logic.{LogicPkt, get_meta, del_meta, add_string_meta}
use wxf_im.Wire.Pkt.Packet.{logic, marshal, must_read_logic_pkt}
use wxf_im.Conn.{Frame, op_binary}
use wxf_im.Container.{meta_dest_server, meta_dest_channels}

-- A call of Srv.Push.
pub record Pushed : Type 0 where
  pub channel : Bytes
  pub payload : Bytes

-- `server != c.Srv.ServiceID()`, an `any` against a string; a missing value is nil.
abbrev pub is_server : Option MetaValue → Bytes → Bool
is_server (some (string_value v)) id = bytes_eq v id
is_server _ id = false

-- channels.(string)
abbrev pub as_string : MetaValue → Outcome Bytes
as_string (string_value v) = ok v
as_string _ = panicked

-- for _, channel := range channelIds
unfoldable pub push_each : Bytes → List Bytes → List Pushed
push_each payload [] = []
push_each payload (id ∷ ids) = record { channel = id; payload = payload } ∷ push_each payload ids

module _ (codec : Codec Header) where
  -- Push(server, p): the call of Srv.Push that it ends with.
  unfoldable pub push : Bytes → LogicPkt → Pushed
  push server p = record {
    channel = server;
    payload = marshal codec (logic (add_string_meta p meta_dest_server server));
  }

  -- pushMessage(packet) at the gateway with this service id
  unfoldable pub push_message : Bytes → LogicPkt → Outcome (List Pushed)
  unfolding push_each
  push_message service_id packet = do
    guard (is_server (get_meta packet meta_dest_server) service_id) dest_server_incorrect
    value ← or_fail (get_meta packet meta_dest_channels) dest_channels_nil
    channels ← as_string value
    packet' ← del_meta packet meta_dest_server
    packet'' ← del_meta packet' meta_dest_channels
    ok (push_each (marshal codec (logic packet'')) (split b',' channels))

  -- One round of readLoop at a frame that Read returned. Errors are logged, and the loop goes on.
  unfoldable pub read_round : Bytes → Frame → Outcome (List Pushed)
  read_round service_id f =
      if f.op_code == op_binary
      then elim (must_read_logic_pkt codec f.payload) [
        | ok (packet, rest) ↦ elim (push_message service_id packet) [
          | ok pushes ↦ ok pushes
          | err e ↦ ok []
          | panicked ↦ panicked
        ]
        | err e ↦ ok []
        | panicked ↦ panicked
      ]
      else ok []

  -- readLoop over the frames that Read returns before its error.
  unfoldable pub read_loop : Bytes → List Frame → Outcome (List Pushed)
  read_loop service_id [] = ok []
  read_loop service_id (f ∷ fs) = do
    now ← read_round service_id f
    later ← read_loop service_id fs
    ok (now ++ later)

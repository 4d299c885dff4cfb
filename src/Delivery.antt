-- ===== src/Delivery.antt =====
-- A message on its whole way from a logic service to the users' channels: ServerDispatcher.Push of
-- wxf/services/server/serv/handler.go, Push, readLoop and pushMessage of wxf/container/container.go.
use mathlib.Core.List.{append-nil}
use wxf_im.Prelude.{
  ◌≡◌, refl, ap, false, none, some, List, [], ◌∷◌, ◌++◌, map, All, All-append, Bytes, bytes_eq,
  bytes_eq_refl, join, Lacks, split-join, ok,
}
use wxf_im.Wire.Pkt.Message.{Header, Meta, Codec, Restores}
use wxf_im.Wire.Pkt.Meta.{string_value, find_meta, add_meta, add_string_meta, string_meta}
use wxf_im.Wire.Pkt.Meta.Lookup.{find_meta-append}
use wxf_im.Wire.Pkt.Meta.Rounds.{IsOther, del_meta-one}
use wxf_im.Wire.Pkt.Meta.Delete.{others_of_missing}
use wxf_im.Wire.Pkt.Logic
use wxf_im.Wire.Pkt.Logic.{LogicPkt, get_meta, del_meta, with_meta}
use wxf_im.Wire.Pkt.Packet.{logic, marshal}
use wxf_im.Wire.Pkt.Packet.RoundTrip.{IsSendable, must_read-marshal}
use wxf_im.Conn.{op_binary}
use wxf_im.Container.{meta_dest_server, meta_dest_channels}
use wxf_im.Container.Push.{Pushed, push, push_each, push_message, read_round}
use wxf_im.LogicServer.Dispatcher.{dispatcher_push}

-- The packet that goes over the wire.
abbrev pub addressed : Bytes → List Bytes → LogicPkt → LogicPkt
addressed gateway channels p =
    Logic.add_string_meta (Logic.add_string_meta p meta_dest_channels (join b',' channels))
      meta_dest_server gateway

-- What the gateway calls: one Srv.Push for each channel, in order.
abbrev pub one_each : Bytes → List Bytes → List Pushed
one_each payload = map λ id. record { channel = id; payload = payload }

push_each-one_each :
    (payload : Bytes) (ids : List Bytes) → push_each payload ids ≡ one_each payload ids
unfolding push_each
push_each-one_each payload [] = refl
push_each-one_each payload (id ∷ ids) =
    ap (◌∷◌ (record { channel = id; payload = payload })) (push_each-one_each payload ids)

keys_differ :
    (bytes_eq meta_dest_channels meta_dest_server ≡ false)
    × (bytes_eq meta_dest_server meta_dest_channels ≡ false)
unfolding bytes_eq
keys_differ = (refl, refl)

module _ (gateway ids : Bytes) (p : LogicPkt) (no_server : find_meta p.meta meta_dest_server ≡ none)
    (no_channels : find_meta p.meta meta_dest_channels ≡ none) where
  abbrev channels_entry : Meta
  channels_entry = string_meta meta_dest_channels ids

  abbrev server_entry : Meta
  server_entry = string_meta meta_dest_server gateway

  -- The two entries that the service adds.
  abbrev with_channels : LogicPkt
  with_channels = with_meta p (p.meta ++ channels_entry ∷ [])

  abbrev with_both : LogicPkt
  with_both = with_meta p ((p.meta ++ channels_entry ∷ []) ++ server_entry ∷ [])

  finds_server : get_meta with_both meta_dest_server ≡ some (string_value gateway)
  unfolding find_meta
  finds_server =
      rw (find_meta-append (p.meta ++ channels_entry ∷ []), find_meta-append p.meta, no_server)
        (rw (keys_differ.0, bytes_eq_refl meta_dest_server))

  finds_channels : get_meta with_both meta_dest_channels ≡ some (string_value ids)
  unfolding find_meta
  finds_channels =
      rw (find_meta-append (p.meta ++ channels_entry ∷ []), find_meta-append p.meta, no_channels)
        (rw (bytes_eq_refl meta_dest_channels))

  deletes_server : del_meta with_both meta_dest_server ≡ ok with_channels
  unfolding del_meta
  deletes_server = rw (
    del_meta-one meta_dest_server (p.meta ++ channels_entry ∷ []) server_entry []
        (bytes_eq_refl meta_dest_server)
        (All-append (IsOther meta_dest_server) p.meta (channels_entry ∷ [])
          (others_of_missing meta_dest_server p.meta no_server) (keys_differ.0, tt))
        tt,
    append-nil,
  )

  deletes_channels : del_meta with_channels meta_dest_channels ≡ ok p
  unfolding del_meta
  deletes_channels = rw (
    del_meta-one meta_dest_channels p.meta channels_entry [] (bytes_eq_refl meta_dest_channels)
        (others_of_missing meta_dest_channels p.meta no_channels) tt,
    append-nil,
  )

addressed-with_both :
    (gateway : Bytes) (channels : List Bytes) (p : LogicPkt)
    (no_server : find_meta p.meta meta_dest_server ≡ none)
    (no_channels : find_meta p.meta meta_dest_channels ≡ none)
    → addressed gateway channels p ≡ with_both gateway (join b',' channels) p no_server no_channels
unfolding Logic.add_string_meta add_string_meta add_meta
addressed-with_both gateway channels p no_server no_channels = refl

push_message-addressed :
    (codec : Codec Header) (gateway channel : Bytes) (channels : List Bytes) (p : LogicPkt)
    → find_meta p.meta meta_dest_server ≡ none
    → find_meta p.meta meta_dest_channels ≡ none
    → All (Lacks b',') (channel ∷ channels)
    → push_message codec gateway (addressed gateway (channel ∷ channels) p)
      ≡ ok (one_each (marshal codec (logic p)) (channel ∷ channels))
unfolding push_message
push_message-addressed codec gateway channel channels p no_server no_channels commas =
    let ids = join b',' (channel ∷ channels) in
    rw (
      addressed-with_both gateway (channel ∷ channels) p no_server no_channels,
      finds_server gateway ids p no_server no_channels,
      bytes_eq_refl gateway,
      finds_channels gateway ids p no_server no_channels,
      deletes_server gateway ids p no_server no_channels,
      deletes_channels gateway ids p no_server no_channels,
      split-join b',' channel channels commas,
      push_each-one_each (marshal codec (logic p)) (channel ∷ channels),
    )

-- A packet that a logic service pushes to a gateway for some channels, one at least, reaches
-- exactly those channels, in order, with the content that the service gave it: the service
-- addresses it to the gateway, and the gateway's read loop turns it into one Srv.Push for each
-- channel. Protobuf restores what it marshals, the addressed packet can be sent, the packet has no
-- entry under dest.server or dest.channels of its own, and no channel id has a comma.
pub dispatched-delivered :
    (codec : Codec Header) (gateway channel : Bytes) (channels : List Bytes) (p : LogicPkt)
    → Restores codec
    → IsSendable codec (logic (addressed gateway (channel ∷ channels) p))
    → find_meta p.meta meta_dest_server ≡ none
    → find_meta p.meta meta_dest_channels ≡ none
    → All (Lacks b',') (channel ∷ channels)
    → let sent = dispatcher_push codec gateway (channel ∷ channels) p in
      (sent.channel ≡ gateway)
      × (read_round codec gateway (record { op_code = op_binary; payload = sent.payload })
          ≡ ok (one_each (marshal codec (logic p)) (channel ∷ channels)))
unfolding dispatcher_push push read_round
dispatched-delivered codec gateway channel channels p restores sendable no_server no_channels
      commas =
    (
      refl,
      let whole =
            must_read-marshal codec (logic (addressed gateway (channel ∷ channels) p)) [] restores
              sendable in
          rw (rw append-nil at whole.0, read_round)
            (rw (
              push_message-addressed codec gateway channel channels p no_server no_channels
                commas)),
    )

-- ===== src/Channel/ChannelMap.antt =====
-- wxf/channels.go: the channels by id. sync.Map's Range goes through the entries in an order of its
-- own; the model takes the order of the association list.
use wxf_im.Prelude.{Option, List, [], ◌∷◌, Bytes}
use wxf_im.Prelude.Assoc.{Assoc, lookup, insert, delete}

-- The map, over whatever stands for a Channel.
module _ {C : Type 0} where
  -- Add(channel): an empty id is reported to the log and stored all the same.
  unfoldable pub add : Bytes → C → Assoc C → Assoc C
  add id channel channels = insert id channel channels

  -- Remove(id)
  unfoldable pub remove : Bytes → Assoc C → Assoc C
  remove id channels = delete id channels

  -- Get(id)
  unfoldable pub get : Bytes → Assoc C → Option C
  get id channels = lookup id channels

  -- All()
  unfoldable pub all : Assoc C → List C
  all [] = []
  all ((id, channel) ∷ channels) = channel ∷ all channels

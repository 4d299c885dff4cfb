-- ===== src/Channel/Deadlines.antt =====
-- NewChannel, SetReadWait and SetWriteWait of wxf/channel.go, and the deadlines that Readloop and
-- WriteFrame set on the connection. A deadline is the moment from which the connection's reads, or its
-- writes, fail; moments and waits are in nanoseconds.
use wxf_im.Prelude.{
  ℕ, ◌+◌, ◌*◌, ◌^◌, ◌≡◌, refl, Option, some, List, [], ◌∷◌, ◌==◌, if◌then◌else◌, arith, Bytes,
}
use wxf_im.Wire.Writer.{Writer}
use wxf_im.Channel.Event.{new_event}
use wxf_im.Channel.WriteLoop.{Chan, waiting}

-- The buffer, the event and the goroutine are those of Chan.
pub record ChannelImpl : Type 0 where
  pub id : Bytes
  pub chan : Chan
  pub write_wait : ℕ
  pub read_wait : ℕ

-- NewChannel(id, conn): the goroutine stands at its select. readWait is not given.
abbrev pub new_channel : Bytes → Writer → ChannelImpl
new_channel id conn = record {
  id = id;
  chan = record { queue = []; conn = conn; closed = new_event; loop = waiting };
  write_wait = 10 * 10 ^ 9;
  read_wait = 0;
}

-- SetWriteWait(duration) and SetReadWait(duration)
abbrev pub set_write_wait : ℕ → ChannelImpl → ChannelImpl
set_write_wait wait c = if wait == 0 then c else record c { write_wait = wait }

abbrev pub set_read_wait : ℕ → ChannelImpl → ChannelImpl
set_read_wait wait c = if wait == 0 then c else record c { read_wait = wait }

-- How Start of the TCP server makes a channel, and how the WebSocket server's handler does.
abbrev pub tcp_channel : ℕ → ℕ → Bytes → Writer → ChannelImpl
tcp_channel read write id conn = set_write_wait write (set_read_wait read (new_channel id conn))

abbrev pub ws_channel : ℕ → ℕ → Bytes → Writer → ChannelImpl
ws_channel read write id conn = set_read_wait read (set_write_wait write (new_channel id conn))

-- The deadlines of a connection, `none` where none is set.
pub record Deadlines : Type 0 where
  pub read_by : Option ℕ
  pub write_by : Option ℕ

-- SetWriteDeadline(now + wait)
abbrev pub set_write_deadline : ℕ → ℕ → Deadlines → Deadlines
set_write_deadline now wait d = record d { write_by = some (now + wait) }

-- What the goroutines of a channel do to its connection, each at some moment: Readloop begins a
-- round, or WriteFrame sets its deadline, and later writes. Nothing keeps a round of Readloop from
-- coming between the two.
pub data Deed : Type 0 where
  begins_round : ℕ → Deed
  prepares_write : ℕ → Deed
  writes_frame : Deed

abbrev pub deed : ChannelImpl → Deadlines → Deed → Deadlines
deed c d (begins_round now) = set_write_deadline now c.read_wait d
deed c d (prepares_write now) = set_write_deadline now c.write_wait d
deed c d writes_frame = d

abbrev pub deeds : ChannelImpl → Deadlines → List Deed → Deadlines
deeds c d [] = d
deeds c d (x ∷ xs) = deeds c (deed c d x) xs

-- The deadlines under which the frames are written.
abbrev pub written_by : ChannelImpl → Deadlines → List Deed → List (Option ℕ)
written_by c d [] = []
written_by c d (begins_round now ∷ xs) = written_by c (deed c d (begins_round now)) xs
written_by c d (prepares_write now ∷ xs) = written_by c (deed c d (prepares_write now)) xs
written_by c d (writes_frame ∷ xs) = d.write_by ∷ written_by c d xs

-- The two servers make the same channel.
ws_channel-tcp_channel :
    (read write : ℕ) (id : Bytes) (conn : Writer)
    → ws_channel read write id conn ≡ tcp_channel read write id conn
ws_channel-tcp_channel read write id conn = ground arith

-- Whatever the goroutines do, the read deadline of the connection stays as it was: a channel never
-- gives up a silent peer.
read_by-deeds :
    (c : ChannelImpl) (d : Deadlines) (xs : List Deed) → (deeds c d xs).read_by ≡ d.read_by
read_by-deeds c d [] = refl
read_by-deeds c d (begins_round now ∷ xs) = read_by-deeds c (deed c d (begins_round now)) xs
read_by-deeds c d (prepares_write now ∷ xs) = read_by-deeds c (deed c d (prepares_write now)) xs
read_by-deeds c d (writes_frame ∷ xs) = read_by-deeds c d xs

-- A round of Readloop that begins between the two calls of WriteFrame puts readWait in place of
-- writeWait for that write.
written_by-race :
    (c : ChannelImpl) (d : Deadlines) (t t' : ℕ)
    → written_by c d (prepares_write t ∷ begins_round t' ∷ writes_frame ∷ [])
      ≡ some (t' + c.read_wait) ∷ []
written_by-race c d t t' = refl

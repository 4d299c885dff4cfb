-- ===== src/Wire/Pkt/Basic.antt =====
-- wxf/wire/pkt/basic_pkt.go: heartbeat packets.
pub mod Wire
use wxf_im.Prelude.{ℕ, [], ltb, if◌then◌else◌, length, Bytes, ok, ◌>>=◌, ◌>>◌}
use wxf_im.Wire.Writer.{Writer, Written, write, and_then}
use wxf_im.Wire.Endian.{Reader, read_uint16, read_fixed_bytes, write_uint16}

abbrev pub code_ping : ℕ
code_ping = 1

abbrev pub code_pong : ℕ
code_pong = 2

pub record BasicPkt : Type 0 where
  pub code : ℕ
  pub length : ℕ
  pub body : Bytes

abbrev pub empty : BasicPkt
empty = record { code = 0; length = 0; body = [] }

read_body : ℕ → Bytes → Reader Bytes
read_body n body src = if ltb 0 n then read_fixed_bytes n src else ok (body, src)

-- (p *BasicPkt) Decode(r): the receiver after it.
unfoldable pub decode : BasicPkt → Reader BasicPkt
unfolding read_body
decode p src = do
  (code, rest) ← read_uint16 src
  (len, rest') ← read_uint16 rest
  (body, rest'') ← read_body len p.body rest'
  ok (record { code = code; length = len; body = body }, rest'')

write_body : ℕ → Bytes → Writer → Written
write_body n body w = if ltb 0 n then write body w else (ok tt, w)

-- (p *BasicPkt) Encode(w)
unfoldable pub encode : BasicPkt → Writer → Written
unfolding write_body
encode p w =
    and_then (write_uint16 p.code w)
      λ w'. and_then (write_uint16 p.length w') λ w''. write_body p.length p.body w''

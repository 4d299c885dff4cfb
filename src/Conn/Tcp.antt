-- ===== src/Conn/Tcp.antt =====
-- wxf/tcp/connection.go: an op code byte and a length-prefixed payload.
pub mod RoundTrip
pub mod Interleaving
use wxf_im.Prelude.{
  ℕ, zero, suc, Option, none, some, List, [], ◌∷◌, Bytes, Error, ok, err, panicked, ◌>>=◌, ◌>>◌,
}
use wxf_im.Wire.Writer.{Writer, Written, and_then}
use wxf_im.Wire.Endian.{Reader, read_uint8, read_bytes, write_uint8, write_bytes}
use wxf_im.Conn.{Frame}

-- (c *ConnTCP) ReadFrame()
unfoldable pub read_frame : Reader Frame
read_frame src = do
  (op_code, rest) ← read_uint8 src
  (payload, rest') ← read_bytes rest
  ok (record { op_code = op_code; payload = payload }, rest')

-- WriteFrame(w, code, payload), which (c *ConnTCP) WriteFrame calls
unfoldable pub write_frame : ℕ → Bytes → Writer → Written
write_frame code payload w = and_then (write_uint8 code w) (write_bytes payload)

-- The frames that calls of ReadFrame return until the first error, and that error. Each call takes
-- a byte at least, so the length of the input is enough fuel; without fuel the list just ends.
unfoldable pub read_frames : ℕ → Bytes → List Frame × Option Error
read_frames zero src = ([], none)
read_frames (suc fuel) src = elim (read_frame src) [
  | ok (f, rest) ↦ let (fs, e) = read_frames fuel rest in (f ∷ fs, e)
  | err e ↦ ([], some e)
  | panicked ↦ ([], none)
]

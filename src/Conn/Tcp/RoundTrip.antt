-- ===== src/Conn/Tcp/RoundTrip.antt =====
-- Frames of wxf/tcp/connection.go on the wire: ReadFrame takes back what WriteFrame wrote.
use mathlib.Core.Path.{fun_ext}
use wxf_im.Prelude.{
  ℕ, zero, suc, ◌%◌, ◌^◌, ◌<◌, ◌≡◌, refl, some, List, [], ◌∷◌, ◌++◌, arith, length, All,
  length-append, Bytes, Error, ok, err,
}
use wxf_im.Wire.Writer.{Writer, write, write-append}
use wxf_im.Wire.Endian.{read_full, read_uint8, write_uint8}
use wxf_im.Wire.Endian.RoundTrip.{frame, write_bytes_lem, read_uint8-be_bytes, read_bytes-frame}
use wxf_im.Conn.{Frame}
use wxf_im.Conn.Tcp.{read_frame, write_frame, read_frames}

abbrev pub frame_bytes : Frame → Bytes
frame_bytes f = f.op_code ∷ frame f.payload

pub record Fits (f : Frame) : Type 0 where
  pub op_byte : f.op_code < 2 ^ 8
  pub payload_word : length f.payload < 2 ^ 32

abbrev pub stream : List Frame → Bytes
stream [] = []
stream (f ∷ fs) = frame_bytes f ++ stream fs

-- WriteFrame with a byte for its op code is one write of the frame's bytes, also on a connection
-- that fails half way.
pub write_frame_lem :
    (f : Frame) (w : Writer)
    → f.op_code < 2 ^ 8
    → write_frame f.op_code f.payload w ≡ write (frame_bytes f) w
unfolding write_frame write_uint8
write_frame_lem f w h =
    let byte : f.op_code % 2 ^ 8 ≡ f.op_code = omega arith in
    rw (byte, fun_ext (write_bytes_lem f.payload))
      (write-append (f.op_code ∷ []) (frame f.payload) w)

pub read_frame-frame_bytes :
    (f : Frame) (rest : Bytes) → Fits f → read_frame (frame_bytes f ++ rest) ≡ ok (f, rest)
unfolding read_frame
read_frame-frame_bytes f rest h = rw (
  read_uint8-be_bytes f.op_code (frame f.payload ++ rest) h.op_byte,
  read_bytes-frame f.payload rest h.payload_word,
)

read_frame-nil : read_frame [] ≡ err Error.eof
unfolding read_frame read_uint8 read_full
read_frame-nil = refl

-- A stream of written frames, each with a byte for its op code and fewer than 2^32 bytes of
-- payload, is read back frame by frame, in order, up to the end of the stream, with more fuel than
-- the stream has bytes.
pub read_frames-stream :
    (fs : List Frame) (fuel : ℕ)
    → All Fits fs
    → length (stream fs) < fuel
    → read_frames fuel (stream fs) ≡ (fs, some Error.eof)
unfolding read_frames
read_frames-stream [] zero h enough = absurd (omega arith)
read_frames-stream [] (suc fuel) h enough = rw (read_frame-nil, read_frames)
read_frames-stream (f ∷ fs) zero h enough = absurd (omega arith)
read_frames-stream (f ∷ fs) (suc fuel) h enough =
    rw (read_frame-frame_bytes f (stream fs) h.0, read_frames)
      (rw (
        read_frames-stream fs fuel h.1
          (omega (arith, length-append (frame f.payload) (stream fs)))))

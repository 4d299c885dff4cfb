-- ===== src/Conn/Tcp/Interleaving.antt =====
-- Two goroutines that write frames to one connection of wxf/tcp/connection.go without a lock, as
-- ping of wxf/tcp/client.go does beside Send, and Readloop of wxf/channel.go beside writeLoop.
-- WriteFrame makes three writes; a schedule says whose write comes next.
use wxf_im.Prelude.{
  ℕ, zero, suc, ◌+◌, ◌*◌, ◌%◌, ◌^◌, ◌<◌, ◌≡◌, refl, sym, ap, ◌∙◌, Bool, true, false, some, List, [],
  ◌∷◌, ◌++◌, arith, All, length, length-append, Bytes, Error, ok, err, panicked, unexpected_eof,
}
use mathlib.Core.List.{append_assoc, append-nil}
use wxf_im.Wire.Writer.{Writer, Written, buffer, write, and_then, write-buffer}
use wxf_im.Wire.Endian.{
  be_bytes, be_value, write_uint8, write_uint32, write_bytes, read_full, read_uint8, read_uint32,
  read_bytes,
}
use wxf_im.Conn.{Frame, op_binary}
use wxf_im.Conn.Tcp.{read_frame, write_frame, read_frames}
use wxf_im.Conn.Tcp.RoundTrip.{Fits, frame_bytes, stream, read_frames-stream}
use wxf_im.Wire.Endian.RoundTrip.{frame, length-be_bytes}
use mathlib.Core.Path.{fun_ext}

-- The writes of WriteFrame, in order.
abbrev pub writes_of : Frame → List Bytes
writes_of f = (f.op_code % 2 ^ 8 ∷ []) ∷ be_bytes 4 (length f.payload % 2 ^ 32) ∷ f.payload ∷ []

-- Writes one after the other, until the first that fails.
unfoldable pub write_all : List Bytes → Writer → Written
write_all [] w = (ok tt, w)
write_all (b ∷ bs) w = and_then (write b w) (write_all bs)

-- The writes of two goroutines by a schedule: `true` is a write of the first, and where one is
-- done the other goes on.
unfoldable pub interleave : List Bool → List Bytes → List Bytes → List Bytes
interleave [] xs ys = xs ++ ys
interleave (true ∷ s) [] ys = ys
interleave (true ∷ s) (x ∷ xs) ys = x ∷ interleave s xs ys
interleave (false ∷ s) xs [] = xs
interleave (false ∷ s) xs (y ∷ ys) = y ∷ interleave s xs ys

and_then-ok : (m : Written) → and_then m (λ w. (ok tt, w)) ≡ m
and_then-ok (ok u, w) = refl
and_then-ok (err e, w) = refl
and_then-ok (panicked, w) = refl

-- WriteFrame is its three writes.
pub write_all-writes_of :
    (f : Frame) (w : Writer) → write_all (writes_of f) w ≡ write_frame f.op_code f.payload w
unfolding write_all write_frame write_uint8 write_bytes write_uint32
write_all-writes_of f w = ap (and_then (write (f.op_code % 2 ^ 8 ∷ []) w)) (
    fun_ext λ v.
      ap (and_then (write (be_bytes 4 (length f.payload % 2 ^ 32)) v))
        (fun_ext λ u. and_then-ok (write f.payload u)))

-- The bytes of some writes, on a connection that takes them all.
abbrev pub joined : List Bytes → Bytes
joined [] = []
joined (b ∷ bs) = b ++ joined bs

write_all-buffer :
    (bs : List Bytes) (out : Bytes) → write_all bs (buffer out) ≡ (ok tt, buffer (out ++ joined bs))
unfolding write_all
write_all-buffer [] out = ap (λ o. (ok tt, buffer o)) (sym (append-nil out))
write_all-buffer (b ∷ bs) out =
    rw (write-buffer b out) (
      write_all-buffer bs (out ++ b) ∙ ap (λ o. (ok tt, buffer o)) (append_assoc out b (joined bs)))

abbrev pub message : Bytes → Frame
message p = record { op_code = op_binary; payload = p }

-- A ping or a pong, by its code.
abbrev pub control : ℕ → Frame
control code = record { op_code = code; payload = [] }

-- A message is begun, the control frame is written, and the message goes on.
abbrev pub cut_schedule : List Bool
cut_schedule = true ∷ false ∷ false ∷ false ∷ []

-- The control frame first, then the message.
abbrev pub whole_schedule : List Bool
whole_schedule = false ∷ false ∷ false ∷ []

cut_bytes :
    (code : ℕ) (p : Bytes)
    → code < 256
    → joined (interleave cut_schedule (writes_of (message p)) (writes_of (control code)))
      ≡ op_binary ∷ code ∷ 0 ∷ 0 ∷ 0 ∷ 0 ∷ (be_bytes 4 (length p % 2 ^ 32) ++ (p ++ []))
unfolding interleave be_bytes
cut_bytes code p h = let byte : code % 2 ^ 8 ≡ code = omega arith in rw byte refl

read_frame_cut :
    (code : ℕ) (rest : Bytes)
    → length rest + 1 < code * 2 ^ 24
    → read_frame (op_binary ∷ code ∷ 0 ∷ 0 ∷ 0 ∷ 0 ∷ rest) ≡ err unexpected_eof
unfolding read_frame read_uint8 read_bytes read_uint32 read_full be_value
read_frame_cut code rest h = ground arith

whole_bytes :
    (code : ℕ) (p : Bytes)
    → code < 256
    → length p < 2 ^ 32
    → joined (interleave whole_schedule (writes_of (message p)) (writes_of (control code)))
      ≡ stream (control code ∷ message p ∷ [])
unfolding interleave be_bytes
whole_bytes code p h k =
    let byte : code % 2 ^ 8 ≡ code = omega arith in
    rw (byte, append_assoc (be_bytes 4 0) (op_binary ∷ (be_bytes 4 (length p % 2 ^ 32) ++ p)) [])
      (simp (append_assoc, append-nil))

length_stream :
    (code : ℕ) (p : Bytes) → length (stream (control code ∷ message p ∷ [])) ≡ length p + 10
length_stream code p = omega (
  arith,
  length-append (frame []) (frame_bytes (message p) ++ []),
  length-append (frame_bytes (message p)) [],
  length-append (be_bytes 4 (length p % 2 ^ 32)) p,
  length-be_bytes 4 (length p % 2 ^ 32),
  length-append (be_bytes 4 0) [],
  length-be_bytes 4 0,
)

-- On a connection that takes everything, with further frames behind the two: where a ping or a pong is
-- written before a message, the reader gets both and then the others. Where it comes between the
-- first two writes of the message, its op code and its length, the reader gets no frame at all, as
-- long as the message and the bytes of the further frames are together shorter than
-- `code * 2 ^ 24 - 6` bytes. The further frames have a byte for their op code and fewer than 2^32 bytes.
pub cut_loses :
    (code : ℕ) (p : Bytes) (later : List Frame) (fuel : ℕ)
    → code < 256
    → length p + length (stream later) + 6 < code * 2 ^ 24
    → All Fits later
    → length p + length (stream later) + 10 < fuel
    → (read_frames fuel (
          joined (interleave cut_schedule (writes_of (message p)) (writes_of (control code)))
          ++ stream later)
        ≡ ([], some unexpected_eof))
      × (read_frames fuel (
            joined (interleave whole_schedule (writes_of (message p)) (writes_of (control code)))
            ++ stream later)
          ≡ (control code ∷ message p ∷ later, some Error.eof))
unfolding read_frames
cut_loses code p later zero byte small fit enough = absurd (omega arith)
cut_loses code p later (suc fuel) byte small fit enough =
    let behind = (be_bytes 4 (length p % 2 ^ 32) ++ (p ++ [])) ++ stream later in
    let len : length behind ≡ 4 + length p + length (stream later) = omega (
      arith,
      length-append (be_bytes 4 (length p % 2 ^ 32) ++ (p ++ [])) (stream later),
      length-append (be_bytes 4 (length p % 2 ^ 32)) (p ++ []),
      length-append p [],
      length-be_bytes 4 (length p % 2 ^ 32),
    ) in
    let cut = read_frame_cut code behind (omega (arith, len)) in
    let whole : stream (control code ∷ message p ∷ []) ++ stream later
        ≡ stream (control code ∷ message p ∷ later) =
      append_assoc (frame_bytes (control code)) (frame_bytes (message p) ++ []) (stream later)
      ∙ ap (λ bs. frame_bytes (control code) ++ bs)
          (append_assoc (frame_bytes (message p)) [] (stream later)) in
    (
      rw (cut_bytes code p byte, read_frames, cut) refl,
      rw (whole_bytes code p byte (omega arith), whole)
          (read_frames-stream (control code ∷ message p ∷ later) (suc fuel)
            (
              record { op_byte = byte; payload_word = omega arith },
              (record { op_byte = omega arith; payload_word = omega arith }, fit),
            )
            (omega (
              arith,
              ap length whole,
              length-append (stream (control code ∷ message p ∷ [])) (stream later),
              length_stream code p,
            ))),
    )

-- ===== src/Wire/Endian/RoundTrip.antt =====
-- What the writers of wxf/wire/endian/helper.go emit, and that the readers take it back.
use mathlib.Core.List.{append_assoc}
use wxf_im.Prelude.{
  ℕ, zero, suc, ◌+◌, ◌*◌, ◌/◌, ◌%◌, ◌^◌, ◌<◌, ◌≡◌, refl, arith, Bytes, AllBytes, [], ◌∷◌, ◌++◌, ok,
  length, length-append, take-append_length, drop-append_length, All-append, IsByte,
}
use native.Mathlib.Nat.{pow-suc}
use wxf_im.Wire.Writer.{Writer, write, write-append}
use wxf_im.Wire.Endian.{
  read_full, be_value, be_bytes, read_uint8, read_uint16, read_uint32, read_uint64, read_bytes,
  read_short_bytes, write_uint16, write_uint32, write_bytes, write_short_bytes,
}

pub length-be_bytes : (w v : ℕ) → length (be_bytes w v) ≡ w
unfolding be_bytes
length-be_bytes zero v = refl
length-be_bytes (suc w) v =
    omega (arith, length-append (be_bytes w (v / 256)) (v % 256 ∷ []), length-be_bytes w (v / 256))

pub be_bytes-AllBytes : (w v : ℕ) → AllBytes (be_bytes w v)
unfolding be_bytes
be_bytes-AllBytes zero v = tt
be_bytes-AllBytes (suc w) v =
    All-append IsByte (be_bytes w (v / 256)) (v % 256 ∷ []) (be_bytes-AllBytes w (v / 256))
      (omega arith, tt)

be_value-concat :
    (acc : ℕ) (bs : Bytes) (b : ℕ) → be_value acc (bs ++ b ∷ []) ≡ be_value acc bs * 256 + b
unfolding be_value
be_value-concat acc [] b = refl
be_value-concat acc (x ∷ bs) b = be_value-concat (acc * 256 + x) bs b

pub be_value-be_bytes : (w v : ℕ) → v < 256 ^ w → be_value 0 (be_bytes w v) ≡ v
unfolding be_bytes be_value
be_value-be_bytes zero v h = ground arith
be_value-be_bytes (suc w) v h =
    let small : v / 256 < 256 ^ w = omega (arith, pow-suc 256 w) in
    rw (be_value-concat 0 (be_bytes w (v / 256)) (v % 256), be_value-be_bytes w (v / 256) small)
      (omega arith)

-- A read of exactly the bytes in front.
pub read_full-append : (bs rest : Bytes) → read_full (length bs) (bs ++ rest) ≡ ok (bs, rest)
unfolding read_full
read_full-append bs rest =
    ground (arith, length-append bs rest, take-append_length bs rest, drop-append_length bs rest)

-- What WriteBytes and WriteShortBytes put on the wire.
abbrev pub frame : Bytes → Bytes
frame bs = be_bytes 4 (length bs % 2 ^ 32) ++ bs

abbrev pub short_frame : Bytes → Bytes
short_frame bs = be_bytes 2 (length bs % 2 ^ 16) ++ bs

pub write_bytes_lem : (bs : Bytes) (w : Writer) → write_bytes bs w ≡ write (frame bs) w
unfolding write_bytes write_uint32
write_bytes_lem bs w = write-append (be_bytes 4 (length bs % 2 ^ 32)) bs w

pub write_short_bytes_lem :
    (bs : Bytes) (w : Writer) → write_short_bytes bs w ≡ write (short_frame bs) w
unfolding write_short_bytes write_uint16
write_short_bytes_lem bs w = write-append (be_bytes 2 (length bs % 2 ^ 16)) bs w

-- A fixed-width integer in front.
pub read_full-be_bytes :
    (k v : ℕ) (rest : Bytes) → read_full k (be_bytes k v ++ rest) ≡ ok (be_bytes k v, rest)
read_full-be_bytes k v rest = rw (length-be_bytes k v) at (read_full-append (be_bytes k v) rest)

pub read_uint8-be_bytes : (v : ℕ) (rest : Bytes) → v < 2 ^ 8 → read_uint8 (v ∷ rest) ≡ ok (v, rest)
unfolding read_uint8
read_uint8-be_bytes v rest h = rw (read_full-append (v ∷ []) rest) (unfold be_value in ground arith)

pub read_uint16-be_bytes :
    (v : ℕ) (rest : Bytes) → v < 2 ^ 16 → read_uint16 (be_bytes 2 v ++ rest) ≡ ok (v, rest)
unfolding read_uint16
read_uint16-be_bytes v rest h = rw (read_full-be_bytes 2 v rest, be_value-be_bytes 2 v h)

pub read_uint32-be_bytes :
    (v : ℕ) (rest : Bytes) → v < 2 ^ 32 → read_uint32 (be_bytes 4 v ++ rest) ≡ ok (v, rest)
unfolding read_uint32
read_uint32-be_bytes v rest h = rw (read_full-be_bytes 4 v rest, be_value-be_bytes 4 v h)

pub read_uint64-be_bytes :
    (v : ℕ) (rest : Bytes) → v < 2 ^ 64 → read_uint64 (be_bytes 8 v ++ rest) ≡ ok (v, rest)
unfolding read_uint64
read_uint64-be_bytes v rest h = rw (read_full-be_bytes 8 v rest, be_value-be_bytes 8 v h)

-- ReadBytes takes back exactly what WriteBytes wrote, whatever follows on the wire.
pub read_bytes-frame :
    (bs rest : Bytes) → length bs < 2 ^ 32 → read_bytes (frame bs ++ rest) ≡ ok (bs, rest)
unfolding read_bytes
read_bytes-frame bs rest h =
    let fits : length bs % 2 ^ 32 ≡ length bs = omega arith in
    rw (
      append_assoc,
      fits,
      read_uint32-be_bytes (length bs) (bs ++ rest) h,
      read_full-append bs rest,
    )

pub read_short_bytes-short_frame :
    (bs rest : Bytes)
    → length bs < 2 ^ 16
    → read_short_bytes (short_frame bs ++ rest) ≡ ok (bs, rest)
unfolding read_short_bytes
read_short_bytes-short_frame bs rest h =
    let fits : length bs % 2 ^ 16 ≡ length bs = omega arith in
    rw (
      append_assoc,
      fits,
      read_uint16-be_bytes (length bs) (bs ++ rest) h,
      read_full-append bs rest,
    )

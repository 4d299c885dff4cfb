-- ===== src/Wire/Endian.antt =====
-- wxf/wire/endian/helper.go: big-endian integers, length-prefixed and fixed-size byte strings.
-- A reader is the list of bytes still to come. After an error it is not read again, so an error
-- carries no rest. Go's byte slices hold numbers below 256.
pub mod RoundTrip
pub mod Exact
pub mod Truncated
use wxf_im.Prelude.{
  ℕ, zero, suc, ◌+◌, ◌-◌, ◌*◌, ◌/◌, ◌%◌, ◌^◌, Bytes, List, [], ◌∷◌, ◌++◌, Outcome, ok, err, eof,
  unexpected_eof, ◌>>=◌, leb, ◌==◌, if◌then◌else◌, length, take, drop,
}
use wxf_im.Wire.Writer.{Writer, Written, write, and_then}

abbrev pub Reader : Type 0 → Type 0
Reader A = Bytes → Outcome (A × Bytes)

-- io.ReadFull into a slice of `n` bytes.
unfoldable pub read_full : ℕ → Reader Bytes
read_full n src =
    if leb n (length src)
    then ok (take n src, drop n src)
    else if length src == 0
    then err eof
    else err unexpected_eof

-- binary.BigEndian: the number that `bs` stands for, after the digits `acc`.
unfoldable pub be_value : ℕ → Bytes → ℕ
be_value acc [] = acc
be_value acc (b ∷ bs) = be_value (acc * 256 + b) bs

-- The low `w` bytes of `v`, highest first.
unfoldable pub be_bytes : ℕ → ℕ → Bytes
be_bytes zero v = []
be_bytes (suc w) v = be_bytes w (v / 256) ++ v % 256 ∷ []

unfoldable pub read_uint8 : Reader ℕ
read_uint8 src = do (bs, rest) ← read_full 1 src; ok (be_value 0 bs, rest)

unfoldable pub read_uint32 : Reader ℕ
read_uint32 src = do (bs, rest) ← read_full 4 src; ok (be_value 0 bs, rest)

unfoldable pub read_uint16 : Reader ℕ
read_uint16 src = do (bs, rest) ← read_full 2 src; ok (be_value 0 bs, rest)

unfoldable pub read_uint64 : Reader ℕ
read_uint64 src = do (bs, rest) ← read_full 8 src; ok (be_value 0 bs, rest)

unfoldable pub read_bytes : Reader Bytes
read_bytes src = do
  (buf_len, rest) ← read_uint32 src
  (buf, rest') ← read_full buf_len rest
  ok (buf, rest')

unfoldable pub read_string : Reader Bytes
read_string src = do (buf, rest) ← read_bytes src; ok (buf, rest)

unfoldable pub read_fixed_bytes : ℕ → Reader Bytes
read_fixed_bytes len src = do (buf, rest) ← read_full len src; ok (buf, rest)

unfoldable pub write_uint8 : ℕ → Writer → Written
write_uint8 val w = write (val % 2 ^ 8 ∷ []) w

unfoldable pub write_uint16 : ℕ → Writer → Written
write_uint16 val w = write (be_bytes 2 val) w

unfoldable pub write_uint32 : ℕ → Writer → Written
write_uint32 val w = write (be_bytes 4 val) w

unfoldable pub write_uint64 : ℕ → Writer → Written
write_uint64 val w = write (be_bytes 8 val) w

unfoldable pub write_bytes : Bytes → Writer → Written
write_bytes buf w = and_then (write_uint32 (length buf % 2 ^ 32) w) (write buf)

unfoldable pub write_string : Bytes → Writer → Written
write_string str w = write_bytes str w

unfoldable pub write_short_bytes : Bytes → Writer → Written
write_short_bytes buf w = and_then (write_uint16 (length buf % 2 ^ 16) w) (write buf)

unfoldable pub read_short_bytes : Reader Bytes
read_short_bytes src = do
  (buf_len, rest) ← read_uint16 src
  (buf, rest') ← read_full buf_len rest
  ok (buf, rest')

unfoldable pub read_short_string : Reader Bytes
read_short_string src = do (buf, rest) ← read_short_bytes src; ok (buf, rest)

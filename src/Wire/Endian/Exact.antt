-- ===== src/Wire/Endian/Exact.antt =====
-- The readers of wxf/wire/endian/helper.go on any input: what an accepted input looks like.
use mathlib.Core.List.{append_assoc, append-nil}
use native.Mathlib.Nat.{pow-suc, le_trans}
use mathlib.Core.Path.{subst}
use native.Mathlib.Numerals.{towards_suc}
use wxf_im.Prelude.{
  ℕ, suc, ◌+◌, ◌*◌, ◌/◌, ◌%◌, ◌^◌, ◌<◌, ◌≡◌, ◌⊎◌, inl, inr, refl, ap, ◌∙◌, arith, Error, Bytes,
  AllBytes, [], ◌∷◌, ◌++◌, ok, err, eof, unexpected_eof, >>=-eq-ok, length, length-take,
  take-append-drop,
}
use wxf_im.Wire.Endian.{read_full, be_value, be_bytes, read_uint32, read_bytes}
use wxf_im.Wire.Endian.RoundTrip.{frame}

-- A successful read of `n` bytes splits them off the input.
pub read_full_splits :
    (n : ℕ) (src : Bytes) (bs rest : Bytes)
    → read_full n src ≡ ok (bs, rest)
    → (src ≡ bs ++ rest) × (length bs ≡ n)
unfolding read_full
read_full_splits n src bs rest h = ground (arith, take-append-drop n src, length-take n src)

-- A failed one ran out of input.
pub read_full_fails :
    (n : ℕ) (src : Bytes)
    → length src < n
    → (e : Error) × (read_full n src ≡ err e) × ((e ≡ eof) ⊎ (e ≡ unexpected_eof))
unfolding read_full
read_full_fails n [] h = (eof, ground arith, inl refl)
read_full_fails n (x ∷ src) h = (unexpected_eof, ground arith, inr refl)

be_bytes-be_value-append :
    (bs : Bytes) (w acc : ℕ)
    → AllBytes bs
    → be_bytes (length bs + w) (be_value acc bs) ≡ be_bytes w acc ++ bs
unfolding be_value be_bytes
be_bytes-be_value-append [] w acc h =
    let width : 0 + w ≡ w = omega arith in simp append-nil (ap (λ n. be_bytes n acc) width)
be_bytes-be_value-append (b ∷ bs) w acc h =
    let quotient : (acc * 256 + b) / 256 ≡ acc = omega arith in
    let digit : (acc * 256 + b) % 256 ≡ b = omega arith in
    let width : suc (length bs) + w ≡ length bs + suc w = omega arith in
    ap (λ n. be_bytes n (be_value (acc * 256 + b) bs)) width
    ∙ be_bytes-be_value-append bs (suc w) (acc * 256 + b) h.1
    ∙ rw (quotient, digit, append_assoc)

-- The digits of the value of some bytes are those bytes.
pub be_bytes-be_value :
    (k : ℕ) (bs : Bytes) → length bs ≡ k → AllBytes bs → be_bytes k (be_value 0 bs) ≡ bs
be_bytes-be_value k bs e h =
    let width : k ≡ length bs + 0 = omega arith in
    ap (λ n. be_bytes n (be_value 0 bs)) width
    ∙ be_bytes-be_value-append bs 0 0 h
    ∙ unfold be_bytes in refl

be_value-lt : (acc : ℕ) (bs : Bytes) → AllBytes bs → be_value acc bs < (acc + 1) * 256 ^ length bs
unfolding be_value
be_value-lt acc [] h = simp towards_suc (omega arith)
be_value-lt acc (b ∷ bs) h =
    le_trans (be_value-lt (acc * 256 + b) bs h.1) (rw (pow-suc 256 (length bs)) (grind arith))

All-append_right : (xs ys : Bytes) → AllBytes (xs ++ ys) → AllBytes xs × AllBytes ys
All-append_right [] ys h = (tt, h)
All-append_right (x ∷ xs) ys h = let (l, r) = All-append_right xs ys h.1 in ((h.0, l), r)

read_uint32_splits :
    (src : Bytes) (n : ℕ) (rest : Bytes)
    → AllBytes src
    → read_uint32 src ≡ ok (n, rest)
    → (src ≡ be_bytes 4 n ++ rest) × (n < 2 ^ 32)
unfolding read_uint32
read_uint32_splits src n rest h e =
    let ((bs, r), read, done) = >>=-eq-ok (read_full 4 src) _ e in
    let (split, four) = read_full_splits 4 src bs r read in
    let bytes : AllBytes bs = (All-append_right bs r (subst AllBytes split h)).0 in
    let value : be_value 0 bs ≡ n = ground arith in
    let digits : be_bytes 4 n ≡ bs = rw (← value) (be_bytes-be_value 4 bs four bytes) in
    (rw digits (ground arith), omega (arith, be_value-lt 0 bs bytes, ap (λ (k : ℕ). 256 ^ k) four))

-- On bytes ReadBytes accepts nothing but what WriteBytes writes: what it takes is the frame of its
-- result.
pub read_bytes-exact :
    (src bs rest : Bytes) → AllBytes src → read_bytes src ≡ ok (bs, rest) → src ≡ frame bs ++ rest
unfolding read_bytes
read_bytes-exact src bs rest h e =
    let ((n, r), read_len, then_body) = >>=-eq-ok (read_uint32 src) _ e in
    let ((body, r'), read_body, done) = >>=-eq-ok (read_full n r) _ then_body in
    let (split, small) = read_uint32_splits src n r h read_len in
    let (split', len) = read_full_splits n r body r' read_body in
    let same : body ≡ bs = ground arith in
    let same' : r' ≡ rest = ground arith in
    let fits : length bs % 2 ^ 32 ≡ n = rw (← same, len) (omega arith) in
    rw (fits, append_assoc) (ground arith)

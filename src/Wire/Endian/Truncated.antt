-- ===== src/Wire/Endian/Truncated.antt =====
-- The readers of wxf/wire/endian/helper.go on an input that is cut short.
use mathlib.Core.List.{append-nil}
use wxf_im.Prelude.{
  ℕ, zero, suc, ◌^◌, ◌≤◌, ◌<◌, ◌≡◌, refl, ap, ◌≢◌, ◌⊎◌, inl, inr, [], ◌∷◌, ◌++◌, arith, leb, ◌==◌,
  Bool-cases, length, take, drop, length-append, Bytes, Error, Outcome, ok, err, panicked, ◌>>=◌,
  >>=-eq-ok, eof, unexpected_eof,
}
use wxf_im.Wire.Endian.{read_full, be_value, read_uint32, read_bytes}
use wxf_im.Wire.Endian.RoundTrip.{frame, read_bytes-frame}

-- The two errors of a reader that ran out of input.
abbrev pub IsCut : Error → Type 0
IsCut e = (e ≡ eof) ⊎ (e ≡ unexpected_eof)

-- A reader answers with a value or that the input was cut; it never panics.
abbrev pub ReadsOrCut {ℓ} : {A : Type ℓ} → Outcome A → Type 0
ReadsOrCut (ok a) = Unit {0}
ReadsOrCut (err e) = IsCut e
ReadsOrCut panicked = ⊥

pub >>=-ReadsOrCut {ℓ κ} :
    {A : Type ℓ} {B : Type κ} (m : Outcome A) (f : A → Outcome B)
    → ReadsOrCut m
    → ((a : A) → ReadsOrCut (f a))
    → ReadsOrCut (m >>= f)
>>=-ReadsOrCut (ok a) f h k = k a
>>=-ReadsOrCut (err e) f h k = h
>>=-ReadsOrCut panicked f h k = h

pub fails-IsCut {ℓ} :
    {A : Type ℓ} (m : Outcome A)
    → ReadsOrCut m
    → ((a : A) → m ≢ ok a)
    → (e : Error) × (m ≡ err e) × IsCut e
fails-IsCut (ok a) h never = absurd (never a refl)
fails-IsCut (err e) h never = (e, refl, h)
fails-IsCut panicked h never = absurd h

pub read_full-ReadsOrCut : (n : ℕ) (src : Bytes) → ReadsOrCut (read_full n src)
unfolding read_full
read_full-ReadsOrCut n src = elim (Bool-cases (leb n (length src))) [
  | inl e ↦ rw e tt
  | inr e ↦
      rw e
        (elim (Bool-cases (length src == 0)) [ inl z ↦ rw z (inl refl) | inr z ↦ rw z (inr refl) ])
]

pub read_uint32-ReadsOrCut : (src : Bytes) → ReadsOrCut (read_uint32 src)
unfolding read_uint32
read_uint32-ReadsOrCut src =
    >>=-ReadsOrCut (read_full 4 src) _ (read_full-ReadsOrCut 4 src) (λ a. tt)

pub read_bytes-ReadsOrCut : (src : Bytes) → ReadsOrCut (read_bytes src)
unfolding read_bytes
read_bytes-ReadsOrCut src =
    >>=-ReadsOrCut (read_uint32 src) _ (read_uint32-ReadsOrCut src)
      λ a. >>=-ReadsOrCut (read_full a.0 a.1) _ (read_full-ReadsOrCut a.0 a.1) (λ b. tt)

take-append_left : (n : ℕ) (a b : Bytes) → n ≤ length a → take n (a ++ b) ≡ take n a
take-append_left zero a b h = refl
take-append_left (suc n) [] b h = absurd (omega arith)
take-append_left (suc n) (x ∷ a) b h = ap (◌∷◌ x) (take-append_left n a b (omega arith))

drop-append_left : (n : ℕ) (a b : Bytes) → n ≤ length a → drop n (a ++ b) ≡ drop n a ++ b
drop-append_left zero a b h = refl
drop-append_left (suc n) [] b h = absurd (omega arith)
drop-append_left (suc n) (x ∷ a) b h = drop-append_left n a b (omega arith)

-- A reader that succeeds does not look past what it takes.
read_full-append_ok :
    (n : ℕ) (src more bs rest : Bytes)
    → read_full n src ≡ ok (bs, rest)
    → read_full n (src ++ more) ≡ ok (bs, rest ++ more)
unfolding read_full
read_full-append_ok n src more bs rest h =
    ground (arith, length-append src more, take-append_left n src more, drop-append_left n src more)

pub read_bytes-append_ok :
    (src more bs rest : Bytes)
    → read_bytes src ≡ ok (bs, rest)
    → read_bytes (src ++ more) ≡ ok (bs, rest ++ more)
unfolding read_bytes read_uint32
read_bytes-append_ok src more bs rest h =
    let ((n, r), read_len, then_body) = >>=-eq-ok (read_uint32 src) _ h in
    let ((digits, r₀), read_four, value) = >>=-eq-ok (read_full 4 src) _ read_len in
    let ((body, r'), read_body, done) = >>=-eq-ok (read_full n r) _ then_body in
    let number : be_value 0 digits ≡ n = ground arith in
    let first : r₀ ≡ r = ground arith in
    rw
      (
        read_full-append_ok 4 src more digits r₀ read_four,
        number,
        first,
        read_full-append_ok n r more body r' read_body,
      )
      (ground arith)

-- On a proper prefix of the frame of fewer than 2^32 bytes, ReadBytes returns io.EOF or
-- io.ErrUnexpectedEOF, and no bytes.
pub read_bytes_truncated :
    (bs front : Bytes) (x : ℕ) (back : Bytes)
    → length bs < 2 ^ 32
    → frame bs ≡ front ++ x ∷ back
    → (e : Error) × (read_bytes front ≡ err e) × IsCut e
read_bytes_truncated bs front x back h split =
    fails-IsCut (read_bytes front) (read_bytes-ReadsOrCut front) λ (bs', rest) e.
      let whole = rw (append-nil, split) at (read_bytes-frame bs [] h) in
      let longer = read_bytes-append_ok front (x ∷ back) bs' rest e in
      let left : rest ++ x ∷ back ≡ [] = ground arith in
      omega (arith, ap length left, length-append rest (x ∷ back))

-- ===== src/Wire/Pkt/Basic/Wire.antt =====
-- The wire form of the packets of wxf/wire/pkt/basic_pkt.go.
use mathlib.Core.List.{append_assoc}
use mathlib.Core.Path.{fun_ext}
use wxf_im.Prelude.{
  ℕ, ◌^◌, ◌<◌, ◌≡◌, ap, ◌∙◌, inl, inr, true, [], ◌∷◌, ◌++◌, arith, ltb, if◌then◌else◌, lt→ltb,
  Bool-cases, length, Bytes, ok,
}
use wxf_im.Wire.Writer.{Writer, write, write_nil, and_then, write-append}
use wxf_im.Wire.Endian.{be_bytes, read_fixed_bytes, write_uint16}
use wxf_im.Wire.Endian.RoundTrip.{read_uint16-be_bytes, read_full-append}
use wxf_im.Wire.Pkt.Basic.{BasicPkt, empty, decode, encode, read_body, write_body}

-- A packet whose fields fit their words and whose Length is that of its Body. Encode does not
-- check it.
pub record IsConsistent (p : BasicPkt) : Type 0 where
  pub code_word : p.code < 2 ^ 16
  pub length_word : p.length < 2 ^ 16
  pub body_length : p.length ≡ length p.body

-- The bytes of a packet behind the magic. The body goes out only where Length is not 0.
abbrev pub wire : BasicPkt → Bytes
wire p = be_bytes 2 p.code ++ (be_bytes 2 p.length ++ (if ltb 0 p.length then p.body else []))

write_body_lem :
    (n : ℕ) (body : Bytes) (w : Writer)
    → write_body n body w ≡ write (if ltb 0 n then body else []) w
unfolding write_body
write_body_lem n body w = elim (Bool-cases (ltb 0 n)) [ inl e ↦ rw e | inr e ↦ rw (e, write_nil w) ]

-- Encode is one write of `wire p`, also on a writer that fails half way.
pub encode_lem : (p : BasicPkt) (w : Writer) → encode p w ≡ write (wire p) w
unfolding encode write_uint16
encode_lem p w =
    let tail = be_bytes 2 p.length ++ (if ltb 0 p.length then p.body else []) in
    ap (and_then (write (be_bytes 2 p.code) w)) (fun_ext after_code)
    ∙ write-append (be_bytes 2 p.code) tail w
  where
    after_code :
        (v : Writer)
        → and_then (write (be_bytes 2 p.length) v) (λ u. write_body p.length p.body u)
          ≡ write (be_bytes 2 p.length ++ (if ltb 0 p.length then p.body else [])) v
    after_code v =
        ap (and_then (write (be_bytes 2 p.length) v)) (fun_ext (write_body_lem p.length p.body))
        ∙ write-append (be_bytes 2 p.length) (if ltb 0 p.length then p.body else []) v

read_body_lem :
    (n : ℕ) (body rest : Bytes)
    → n ≡ length body
    → read_body n [] ((if ltb 0 n then body else []) ++ rest) ≡ ok (body, rest)
unfolding read_body read_fixed_bytes
read_body_lem n [] rest h = rw h
read_body_lem n (b ∷ body) rest h =
    let some_body : ltb 0 (length (b ∷ body)) ≡ true = lt→ltb _ _ (omega arith) in
    rw (h, some_body, read_full-append (b ∷ body) rest)

-- Decode reads back a consistent packet from what Encode wrote.
pub decode-wire :
    (p : BasicPkt) (rest : Bytes) → IsConsistent p → decode empty (wire p ++ rest) ≡ ok (p, rest)
unfolding decode
decode-wire p rest h =
    let body = if ltb 0 p.length then p.body else [] in
    rw (
      append_assoc,
      read_uint16-be_bytes p.code ((be_bytes 2 p.length ++ body) ++ rest) h.code_word,
      append_assoc (be_bytes 2 p.length) body rest,
      read_uint16-be_bytes p.length (body ++ rest) h.length_word,
      read_body_lem p.length p.body rest h.body_length,
    )

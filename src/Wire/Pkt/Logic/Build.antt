-- ===== src/Wire/Pkt/Logic/Build.antt =====
-- How packets of wxf/wire/pkt/packet.go are made: New, WriteBody and ReadBody, ServiceName.
use wxf_im.Prelude.{
  ℕ, ◌≡◌, refl, ◌≢◌, some, List, ◌∷◌, ◌++◌, arith, ◌==◌, if◌then◌else◌, Bytes, lit, Lacks,
  split_two-append, split_two-Lacks, ok,
}
use wxf_im.Wire.Seq.{next}
use wxf_im.Wire.Seq.Values.{InRange, next-InRange}
use wxf_im.Wire.Pkt.Message.{Header, Codec, Restores, empty_header}
use wxf_im.Wire.Pkt.Logic.{
  LogicPkt, HeaderOption, apply_options, new, service_name, write_body, read_body,
}

-- On a counter in its range, a new packet never has sequence 0; it takes one number off the counter
-- exactly where the options left the sequence 0, and the counter stays in its range.
pub new-sequence :
    (command : Bytes) (options : List HeaderOption) (seq : ℕ)
    → InRange seq
    → let set = (apply_options options (record empty_header { command = command })).sequence in
      let r = new command options seq in
      (r.0.sequence ≢ 0)
      × (r.0.sequence ≡ (if set == 0 then (next seq).0 else set))
      × (r.1 ≡ (if set == 0 then (next seq).1 else seq))
      × InRange r.1
unfolding new
new-sequence command options seq h = ground (arith, next-InRange seq h)

-- ReadBody gives back a message that WriteBody stored, if it can be marshalled and protobuf
-- restores what it marshals; WriteBody leaves the header as it is.
pub read_body-write_body :
    {M : Type 0} (codec : Codec M) (p : LogicPkt) (val : M) (bs : Bytes)
    → Restores codec
    → codec.marshal val ≡ some bs
    → (read_body codec (write_body codec p (some val)) ≡ ok val)
      × ((write_body codec p (some val)).header ≡ p.header)
unfolding read_body write_body
read_body-write_body codec p val bs restores h = (rw (h, restores val bs h), refl)

-- The service of a command is what stands before its first dot.
pub service_name_dotted :
    (h : Header) (service rest : Bytes)
    → Lacks b'.' service
    → h.command ≡ service ++ b'.' ∷ rest
    → service_name h ≡ service
unfolding service_name
service_name_dotted h service rest lacks e = rw (e, split_two-append b'.' service rest lacks)

-- The service of a command without a dot is "default".
pub service_name_plain : (h : Header) → Lacks b'.' h.command → service_name h ≡ lit "default"
unfolding service_name
service_name_plain h lacks = rw (split_two-Lacks b'.' h.command lacks)

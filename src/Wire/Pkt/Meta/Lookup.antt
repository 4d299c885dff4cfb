-- ===== src/Wire/Pkt/Meta/Lookup.antt =====
-- FindMeta of wxf/wire/pkt/packet.go after AddStringMeta.
use wxf_im.Prelude.{
  ◌≡◌, refl, ◌∙◌, Option, none, some, List, [], ◌∷◌, ◌++◌, arith, if◌then◌else◌, Bytes, bytes_eq,
}
use wxf_im.Wire.Pkt.Message.{Meta}
use wxf_im.Wire.Pkt.Meta.{MetaValue, string_value, find_meta, add_string_meta, string_meta}

-- The first of two values, as FindMeta chooses among entries of one key.
abbrev pub or_else {ℓ} : {A : Type ℓ} → Option A → Option A → Option A
or_else none b = b
or_else (some a) b = some a

pub find_meta-append :
    (ms ns : List Meta) (key : Bytes)
    → find_meta (ms ++ ns) key ≡ or_else (find_meta ms key) (find_meta ns key)
unfolding find_meta
find_meta-append [] ns key = refl
find_meta-append (m ∷ ms) ns key = ground (arith, find_meta-append ms ns key)

-- An added entry is found under its key unless an older entry stands there; other keys are as
-- before.
pub find_meta-add_string_meta :
    (ms : List Meta) (key value other : Bytes)
    → find_meta (add_string_meta ms key value) other
      ≡ or_else
          (find_meta ms other)
          (if bytes_eq key other then some (string_value value) else none)
unfolding add_string_meta
find_meta-add_string_meta ms key value other =
    rw (find_meta-append ms (string_meta key value ∷ []) other) (unfold find_meta in ground arith)

-- What is found under a key stays, whatever entry is added behind it.
pub find_meta-kept :
    (ms : List Meta) (key value other : Bytes) (v : MetaValue)
    → find_meta ms other ≡ some v
    → find_meta (add_string_meta ms key value) other ≡ some v
find_meta-kept ms key value other v found =
    find_meta-add_string_meta ms key value other ∙ rw found refl

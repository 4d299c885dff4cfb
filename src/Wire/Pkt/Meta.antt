-- ===== src/Wire/Pkt/Meta.antt =====
-- The metadata of a packet: FindMeta, GetMeta, DelMeta, AddMeta and AddStringMeta of
-- wxf/wire/pkt/packet.go, over the header's list of entries.
pub mod Number
pub mod Rounds
pub mod Delete
pub mod Lookup
use wxf_im.Prelude.{
  ℕ, zero, suc, ◌+◌, ◌-◌, Option, none, some, List, [], ◌∷◌, ◌++◌, ltb, ◌==◌, if◌then◌else◌, length,
  get_elem?, take, drop, Bytes, bytes_eq, Outcome, ok, panicked, ◌>>=◌, ◌>>◌,
}
use wxf_im.Wire.Pkt.Message.{Meta, MetaType}
use Number.{Parsed, atoi}

-- The value of the `any` that FindMeta returns. A float64 is kept as the text that ParseFloat reads.
pub data MetaValue : Type 0 where
  int_value : Parsed → MetaValue
  float_value : Bytes → MetaValue
  string_value : Bytes → MetaValue

meta_value : MetaType → Bytes → MetaValue
meta_value MetaType.int v = int_value (atoi v)
meta_value MetaType.float v = float_value v
meta_value _ v = string_value v

-- FindMeta: the first entry under the key.
unfoldable pub find_meta : List Meta → Bytes → Option MetaValue
unfolding meta_value
find_meta [] key = none
find_meta (m ∷ ms) key =
    if bytes_eq m.key key then some (meta_value m.type m.value) else find_meta ms key

-- AddMeta(m...)
unfoldable pub add_meta : List Meta → List Meta → List Meta
add_meta meta ms = meta ++ ms

abbrev pub string_meta : Bytes → Bytes → Meta
string_meta key value = record { key = key; value = value; type = MetaType.string }

unfoldable pub add_string_meta : List Meta → Bytes → Bytes → List Meta
unfolding add_meta
add_string_meta meta key value = add_meta meta (string_meta key value ∷ [])

-- The slice p.Meta while DelMeta runs: the array that `range` reads, and the length of p.Meta.
pub record Slice : Type 0 where
  pub array : List Meta
  pub len : ℕ

-- copy(p.Meta[i:], p.Meta[i+1:]) on the first `len` elements of the array.
abbrev pub shift_left : ℕ → ℕ → List Meta → List Meta
shift_left i len arr = take i arr ++ take (len - 1 - i) (drop (suc i) arr) ++ drop (len - 1) arr

-- One round of the loop. `length-1` is an int, negative at an empty slice, and `i < length-1` is
-- then false; p.Meta[:length-1] panics there.
del_round : Bytes → ℕ → Slice → Outcome Slice
del_round key i s = elim (get_elem? s.array i) [
  | none ↦ panicked
  | some m ↦
      if bytes_eq m.key key
      then if s.len == 0
        then panicked
        else ok (record {
          array = if ltb (i + 1) s.len then shift_left i s.len s.array else s.array;
          len = s.len - 1;
        })
      else ok s
]

-- The rounds `i`, `i + 1`, … that are left; `range` has fixed their number.
del_rounds : ℕ → Bytes → ℕ → Slice → Outcome Slice
del_rounds zero key i s = ok s
del_rounds (suc n) key i s = del_round key i s >>= del_rounds n key (suc i)

-- DelMeta(key)
unfoldable pub del_meta : Bytes → List Meta → Outcome (List Meta)
unfolding del_round del_rounds
del_meta key meta = do
  s ← del_rounds (length meta) key 0 (record { array = meta; len = length meta })
  ok (take s.len s.array)

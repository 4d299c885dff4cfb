-- ===== src/Wire/Pkt/Meta/Delete.antt =====
-- DelMeta of wxf/wire/pkt/packet.go against a plain filter.
use wxf_im.Prelude.{
  ◌≤◌, ◌≡◌, refl, ap, ◌≢◌, ◌⊎◌, inl, inr, true, none, List, [], ◌∷◌, ◌++◌, arith, Bool-cases, All,
  Bytes, bytes_eq_iff, split, ok,
}
use wxf_im.Wire.Pkt.Message.{Meta}
use wxf_im.Wire.Pkt.Meta.{find_meta, del_meta}
use wxf_im.Wire.Pkt.Meta.Rounds.{has_key, IsOther, count_key, without, del_meta-one, del_meta-none}

count_key-zero :
    (key : Bytes) (meta : List Meta)
    → count_key key meta ≤ 0
    → All (IsOther key) meta × (without key meta ≡ meta)
count_key-zero key [] h = (tt, refl)
count_key-zero key (x ∷ meta) h = elim (Bool-cases (has_key key x)) [
  | inl e ↦ absurd (omega (arith, rw e at h))
  | inr e ↦ let (others, same) = count_key-zero key meta (rw e at h) in ((e, others), rw (e, same))
]

-- A list with at most one entry under the key, taken apart at that entry.
count_key-cases :
    (key : Bytes) (meta : List Meta)
    → count_key key meta ≤ 1
    → (All (IsOther key) meta × (without key meta ≡ meta))
      ⊎ ((pre : List Meta) × (m : Meta) × (post : List Meta) × (meta ≡ pre ++ m ∷ post)
          × (without key meta ≡ pre ++ post)
          × (has_key key m ≡ true)
          × All (IsOther key) pre
          × All (IsOther key) post)
count_key-cases key [] h = inl (tt, refl)
count_key-cases key (x ∷ meta) h = elim (Bool-cases (has_key key x)) [
  | inl e ↦
      let (others, same) = count_key-zero key meta (omega (arith, rw e at h)) in
      inr ([], x, meta, refl, rw (e, same), e, tt, others)
  | inr e ↦ elim (count_key-cases key meta (rw e at h)) [
    | inl (others, same) ↦ inl ((e, others), rw (e, same))
    | inr (pre, m, post, split, rest, hit, before, after) ↦
        inr (x ∷ pre, m, post, ap (◌∷◌ x) split, rw (e, rest), hit, (e, before), after)
  ]
]

-- Where a key stands at most once, DelMeta removes it, keeps every other entry in order, and does
-- not panic.
pub del_meta-filter :
    (key : Bytes) (meta : List Meta)
    → count_key key meta ≤ 1
    → del_meta key meta ≡ ok (without key meta)
del_meta-filter key meta h = elim (count_key-cases key meta h) [
  | inl (others, same) ↦ rw same (del_meta-none key meta others)
  | inr (pre, m, post, split, rest, hit, before, after) ↦
      rw (rest, split) (del_meta-one key pre m post hit before after)
]

pub find_meta-without : (key : Bytes) (meta : List Meta) → find_meta (without key meta) key ≡ none
unfolding find_meta
find_meta-without key [] = refl
find_meta-without key (x ∷ meta) = ground (arith, find_meta-without key meta)

pub find_meta-without_ne :
    (key other : Bytes) (meta : List Meta)
    → key ≢ other
    → find_meta (without key meta) other ≡ find_meta meta other
unfolding find_meta
find_meta-without_ne key other [] h = refl
find_meta-without_ne key other (x ∷ meta) h =
    ground (
      arith,
      find_meta-without_ne key other meta h,
      bytes_eq_iff x.key key,
      bytes_eq_iff x.key other,
    )

-- Where FindMeta finds nothing, no entry stands under the key.
pub others_of_missing :
    (key : Bytes) (meta : List Meta) → find_meta meta key ≡ none → All (IsOther key) meta
unfolding find_meta
others_of_missing key [] h = tt
others_of_missing key (m ∷ meta) h = elim (Bool-cases (has_key key m)) [
  | inl e ↦ absurd (ground arith)
  | inr e ↦ (e, others_of_missing key meta (ground arith))
]

-- ===== src/Wire/Pkt/Meta/Rounds.antt =====
-- The loop of DelMeta of wxf/wire/pkt/packet.go, round by round.
use mathlib.Core.List.{append_assoc, append-nil}
use wxf_im.Prelude.{
  ℕ, zero, suc, ◌+◌, ◌-◌, ◌≤◌, ◌<◌, ◌≡◌, refl, Bool, true, false, not, some, List, [], ◌∷◌, ◌++◌,
  arith, length, get_elem?, take, drop, keep, All, length-append, take-append_length, length-drop,
  All-append, Bytes, bytes_eq, ok,
}
use wxf_im.Wire.Pkt.Message.{Meta}
use wxf_im.Wire.Pkt.Meta.{Slice, shift_left, del_round, del_rounds, del_meta}

abbrev pub has_key : Bytes → Meta → Bool
has_key key m = bytes_eq m.key key

abbrev pub IsOther : Bytes → Meta → Type 0
IsOther key m = bytes_eq m.key key ≡ false

-- How many entries stand under the key.
abbrev pub count_key : Bytes → List Meta → ℕ
count_key key meta = length (keep (has_key key) meta)

abbrev pub without : Bytes → List Meta → List Meta
without key meta = keep (λ m. not (has_key key m)) meta

abbrev slice : List Meta → ℕ → Slice
slice arr len = record { array = arr; len = len }

drop-cons :
    (i : ℕ) (arr : List Meta)
    → i < length arr
    → (m : Meta) × (get_elem? arr i ≡ some m) × (drop i arr ≡ m ∷ drop (suc i) arr)
drop-cons i [] h = absurd (omega arith)
drop-cons zero (x ∷ arr) h = (x, refl, refl)
drop-cons (suc i) (x ∷ arr) h = drop-cons i arr (omega arith)

get_elem?-append_length :
    (pre : List Meta) (m : Meta) (suf : List Meta)
    → get_elem? (pre ++ m ∷ suf) (length pre) ≡ some m
get_elem?-append_length [] m suf = refl
get_elem?-append_length (x ∷ pre) m suf = get_elem?-append_length pre m suf

-- A round at an entry under another key.
del_round-other :
    (key : Bytes) (i : ℕ) (m : Meta) (s : Slice)
    → get_elem? s.array i ≡ some m
    → IsOther key m
    → del_round key i s ≡ ok s
unfolding del_round
del_round-other key i m s e h = rw (e, del_round) (rw h)

-- Rounds over entries under other keys change nothing.
del_rounds-skip :
    (key : Bytes) (k total n i j : ℕ) (arr : List Meta) (len : ℕ)
    → total ≡ k + n
    → j ≡ i + k
    → i + k ≤ length arr
    → All (IsOther key) (take k (drop i arr))
    → del_rounds total key i (slice arr len) ≡ del_rounds n key j (slice arr len)
unfolding del_rounds
del_rounds-skip key zero total n i j arr len ht hj hi h =
    let same : total ≡ n = omega arith in let same' : i ≡ j = omega arith in rw (same, same')
del_rounds-skip key (suc k) zero n i j arr len ht hj hi h = absurd (omega arith)
del_rounds-skip key (suc k) (suc t) n i j arr len ht hj hi h =
    let (m, e, d) = drop-cons i arr (omega arith) in
    let others : All (IsOther key) (m ∷ take k (drop (suc i) arr)) = rw d at h in
    rw (del_round-other key i m (slice arr len) e others.0) (
      del_rounds-skip key k t n (suc i) j arr len (omega arith) (omega arith) (omega arith)
        others.1)

drop-append_suc :
    (pre : List Meta) (m : Meta) (post : List Meta)
    → drop (suc (length pre)) (pre ++ m ∷ post) ≡ post
drop-append_suc [] m post = refl
drop-append_suc (x ∷ pre) m post = drop-append_suc pre m post

drop-append_add :
    (pre post : List Meta) (n k : ℕ) → n ≡ length pre + k → drop n (pre ++ post) ≡ drop k post
drop-append_add [] post n k e = let same : n ≡ k = omega arith in rw same
drop-append_add (x ∷ pre) post zero k e = absurd (omega arith)
drop-append_add (x ∷ pre) post (suc n) k e = drop-append_add pre post n k (omega arith)

take-append_eq : (n : ℕ) (xs ys : List Meta) → n ≡ length xs → take n (xs ++ ys) ≡ xs
take-append_eq n xs ys e = rw e (take-append_length xs ys)

All-drop : (P : Meta → Type 0) (n : ℕ) (xs : List Meta) → All P xs → All P (drop n xs)
All-drop P zero xs h = h
All-drop P (suc n) [] h = h
All-drop P (suc n) (x ∷ xs) h = All-drop P n xs h.1

All-take : (P : Meta → Type 0) (n : ℕ) (xs : List Meta) → All P xs → All P (take n xs)
All-take P zero xs h = tt
All-take P (suc n) [] h = tt
All-take P (suc n) (x ∷ xs) h = (h.0, All-take P n xs h.1)

-- The array after the entry behind `pre` has been shifted out: the last entry stands there twice.
shift_left_lem :
    (pre : List Meta) (m : Meta) (post : List Meta)
    → shift_left (length pre) (length pre + suc (length post)) (pre ++ m ∷ post)
      ≡ pre ++ post ++ drop (length post) (m ∷ post)
shift_left_lem pre m post =
    let middle : length pre + suc (length post) - 1 - length pre ≡ length post = omega arith in
    rw (
      take-append_length pre (m ∷ post),
      drop-append_suc pre m post,
      middle,
      rw append-nil at (take-append_length post []),
      drop-append_add pre (m ∷ post) (length pre + suc (length post) - 1) (length post)
          (omega arith),
    )

-- The round at the entry that goes.
del_round-hit :
    (key : Bytes) (pre : List Meta) (m : Meta) (post : List Meta)
    → has_key key m ≡ true
    → let len = length pre + suc (length post) in
      (arr : List Meta) × (del_round key (length pre) (slice (pre ++ m ∷ post) len)
        ≡ ok (slice arr (len - 1)))
      × (take (len - 1) arr ≡ pre ++ post)
      × (length arr ≡ len)
      × (All (IsOther key) post
          → All (IsOther key) (take (length post) (drop (suc (length pre)) arr)))
unfolding del_round
del_round-hit key pre m [] hit = (
  pre ++ m ∷ [],
  rw (get_elem?-append_length pre m [], del_round) (rw hit (ground arith)),
  rw append-nil (take-append_eq _ pre (m ∷ []) (omega arith)),
  length-append pre (m ∷ []),
  λ h. tt,
)
del_round-hit key pre m (p ∷ post) hit =
    let arr = pre ++ (p ∷ post) ++ drop (length (p ∷ post)) (m ∷ p ∷ post) in
    let tail = drop (length (p ∷ post)) (m ∷ p ∷ post) in
    let front : take (length pre + suc (length (p ∷ post)) - 1) arr ≡ pre ++ p ∷ post =
      take-append_eq _ (pre ++ p ∷ post) tail (omega (arith, length-append pre (p ∷ post))) in
    (
      arr,
      rw (get_elem?-append_length pre m (p ∷ post), del_round)
          (rw hit (ground (arith, shift_left_lem pre m (p ∷ post)))),
      front,
      omega (
        arith,
        length-append (pre ++ p ∷ post) tail,
        length-append pre (p ∷ post),
        length-drop (length (p ∷ post)) (m ∷ p ∷ post),
      ),
      λ others.
          rw (append_assoc, drop-append_suc pre p (post ++ tail))
            (All-take (IsOther key) (suc (length post)) (post ++ tail) (
              All-append (IsOther key) post tail others.1
                (All-drop (IsOther key) (length post) (p ∷ post) others))),
    )

-- One entry under the key goes; the entries around it stay in order.
pub del_meta-one :
    (key : Bytes) (pre : List Meta) (m : Meta) (post : List Meta)
    → has_key key m ≡ true
    → All (IsOther key) pre
    → All (IsOther key) post
    → del_meta key (pre ++ m ∷ post) ≡ ok (pre ++ post)
unfolding del_meta del_rounds
del_meta-one key pre m post hit before after =
    let all = pre ++ m ∷ post in
    let len = length pre + suc (length post) in
    let (arr, round, front, size, others) = del_round-hit key pre m post hit in
    let skip_before : del_rounds len key 0 (slice all len)
        ≡ del_rounds (suc (length post)) key (length pre) (slice all len) =
      del_rounds-skip key (length pre) len (suc (length post)) 0 (length pre) all len (omega arith)
        (omega arith) (omega (arith, length-append pre (m ∷ post)))
        (rw (take-append_length pre (m ∷ post)) before) in
    let skip_after : del_rounds (length post) key (suc (length pre)) (slice arr (len - 1))
        ≡ ok (slice arr (len - 1)) =
      del_rounds-skip key (length post) (length post) 0 (suc (length pre)) len arr (len - 1)
        (omega arith) (omega arith) (omega (arith, size)) (others after) in
    rw (length-append pre (m ∷ post), skip_before, round, skip_after, front)

pub del_meta-none :
    (key : Bytes) (meta : List Meta) → All (IsOther key) meta → del_meta key meta ≡ ok meta
unfolding del_meta del_rounds
del_meta-none key meta h =
    let len = length meta in
    let skip : del_rounds len key 0 (slice meta len) ≡ ok (slice meta len) =
      del_rounds-skip key len len 0 0 len meta len (omega arith) (omega arith) (omega arith)
        (All-take (IsOther key) len meta h) in
    rw (skip, rw append-nil at (take-append_length meta []))

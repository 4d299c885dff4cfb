-- ===== src/Server/Registry/Distinct.antt =====
-- Start where Accept never gives one id to two connections.
use wxf_im.Prelude.{
  ℕ, ◌≡◌, refl, sym, ap, ◌∙◌, ◌≢◌, ◌↔◌, inl, inr, true, false, Option, none, some, arith, ◌==◌,
  Bool-cases, Bytes, bytes_eq_refl, bytes_eq_iff,
}
use wxf_im.Prelude.Assoc.{Assoc, lookup, insert, delete, lookup-insert, lookup-delete}
use wxf_im.Server.Registry.{Stage, unnamed, named, checked, live, ended, Registry}
use wxf_im.Server.Registry.Moves.{
  put, Moved, names, fails, refuses, passes, adds, leaves, rests, step-Moved, Reach, start, later,
}
use wxf_im.Server.Registry.Invariant.{HoldsLive, Reach-HoldsLive}

abbrev pub AreDistinct : (ℕ → Option Bytes) → Type 0
AreDistinct ids = (c d : ℕ) (id : Bytes) → ids c ≡ some id → ids d ≡ some id → c ≡ d

-- The id that the goroutine works with.
abbrev pub id_of : Stage → Option Bytes
id_of unnamed = none
id_of (named id) = some id
id_of (checked id) = some id
id_of (live id) = some id
id_of (ended told) = none

-- The id of a goroutine is the one that Accept gave it.
abbrev pub KeepsIds : (ℕ → Option Bytes) → Registry → Type 0
KeepsIds ids r = (d : ℕ) (id : Bytes) → id_of (r.stage d) ≡ some id → ids d ≡ some id

put-KeepsIds :
    (ids : ℕ → Option Bytes) (r : Registry) (c : ℕ) (channels : Assoc ℕ) (st : Stage)
    → KeepsIds ids r
    → ((id : Bytes) → id_of st ≡ some id → ids c ≡ some id)
    → KeepsIds ids (put r c channels st)
put-KeepsIds ids r c channels st h new d id own = elim (Bool-cases (c == d)) [
  | inl e ↦ let same : c ≡ d = ground arith in rw (← same) (new id (rw e at own))
  | inr e ↦ h d id (rw e at own)
]

Moved-KeepsIds :
    {ids : ℕ → Option Bytes} {r s : Registry} {c : ℕ}
    → Moved (ids c) r c s
    → KeepsIds ids r
    → KeepsIds ids s
Moved-KeepsIds {ids} {r} {c = c} (names id at a e) h =
    rw e (put-KeepsIds ids r c r.channels (named id) h (λ i p. a ∙ p))
Moved-KeepsIds {ids} {r} {c = c} (fails at a e) h =
    rw e (put-KeepsIds ids r c r.channels (ended false) h (λ i p. cc))
Moved-KeepsIds {ids} {r} {c = c} (refuses id o at a e) h =
    rw e (put-KeepsIds ids r c r.channels (ended false) h (λ i p. cc))
Moved-KeepsIds {ids} {r} {c = c} (passes id at a e) h =
    rw e (put-KeepsIds ids r c r.channels (checked id) h (λ i p. h c i (ap id_of at ∙ p)))
Moved-KeepsIds {ids} {r} {c = c} (adds id at e) h =
    rw e
      (put-KeepsIds ids r c (insert id c r.channels) (live id) h (λ i p. h c i (ap id_of at ∙ p)))
Moved-KeepsIds {ids} {r} {c = c} (leaves id at e) h =
    rw e (put-KeepsIds ids r c (delete id r.channels) (ended true) h (λ i p. cc))
Moved-KeepsIds (rests told at e) h = rw e h

pub Reach-KeepsIds : {ids : ℕ → Option Bytes} {r : Registry} → Reach ids r → KeepsIds ids r
Reach-KeepsIds start d id own = cc
Reach-KeepsIds {ids} (later {r} run c) d id own =
    Moved-KeepsIds {ids = ids} (step-Moved (ids c) r c) (Reach-KeepsIds run) d id own

-- Each live connection is in the map, and none was refused whom Accept gave an id.
pub record IsExact (ids : ℕ → Option Bytes) (r : Registry) : Type 0 where
  pub entered : (d : ℕ) (id : Bytes) → r.stage d ≡ live id → lookup id r.channels ≡ some d
  pub refused : (d : ℕ) → r.stage d ≡ ended false → ids d ≡ none

module _ {ids : ℕ → Option Bytes} (distinct : AreDistinct ids) where
  -- Another goroutine with an id has another id.
  other_id :
      (r : Registry) (c d : ℕ) (own id : Bytes)
      → KeepsIds ids r
      → id_of (r.stage c) ≡ some own
      → id_of (r.stage d) ≡ some id
      → c ≢ d
      → own ≢ id
  other_id r c d own id keeps hc hd ne same =
      ne (distinct c d id (keeps c id (hc ∙ ap some same)) (keeps d id hd))

  -- Where the stage of `c` becomes one that is neither live nor refused, other entries staying.
  put-IsExact :
      (r : Registry) (c : ℕ) (channels : Assoc ℕ) (st : Stage)
      → IsExact ids r
      → ((id : Bytes) → st ≡ live id → lookup id channels ≡ some c)
      → (st ≡ ended false → ids c ≡ none)
      → ((d : ℕ) (id : Bytes)
          → c ≢ d
          → r.stage d ≡ live id
          → lookup id channels ≡ lookup id r.channels)
      → IsExact ids (put r c channels st)
  put-IsExact r c channels st exact own no_id others = record {
    entered = λ d id at. elim (Bool-cases (c == d)) [
      | inl e ↦ let same : c ≡ d = ground arith in rw (← same) (own id (rw e at at))
      | inr e ↦
          let there : r.stage d ≡ live id = rw e at at in
          others d id (ground arith) there ∙ exact.entered d id there
    ];
    refused = λ d at. elim (Bool-cases (c == d)) [
      | inl e ↦ let same : c ≡ d = ground arith in rw (← same) (no_id (rw e at at))
      | inr e ↦ exact.refused d (rw e at at)
    ];
  }

  Moved-IsExact :
      {r s : Registry} {c : ℕ}
      → Moved (ids c) r c s
      → HoldsLive r
      → KeepsIds ids r
      → IsExact ids r
      → IsExact ids s
  Moved-IsExact {r} {c = c} (names id at a e) holds keeps exact =
      rw e (put-IsExact r c r.channels (named id) exact (λ i p. cc) (λ p. cc) (λ d i ne p. refl))
  Moved-IsExact {r} {c = c} (fails at a e) holds keeps exact =
      rw e (put-IsExact r c r.channels (ended false) exact (λ i p. cc) (λ p. a) (λ d i ne p. refl))
  Moved-IsExact {r} {c = c} (refuses id o at taken e) holds keeps exact =
      let there : r.stage o ≡ live id = holds id o taken in
      let same : c ≡ o = distinct c o id (keeps c id (ap id_of at)) (keeps o id (ap id_of there)) in
      absurd (cc (sym at ∙ ap r.stage same ∙ there))
  Moved-IsExact {r} {c = c} (passes id at a e) holds keeps exact =
      rw e (put-IsExact r c r.channels (checked id) exact (λ i p. cc) (λ p. cc) (λ d i ne p. refl))
  Moved-IsExact {r} {c = c} (adds id at e) holds keeps exact = rw e (
      put-IsExact r c (insert id c r.channels) (live id) exact
        (λ i p.
          let same : id ≡ i = cc in
          rw (lookup-insert id i c r.channels, same, bytes_eq_refl i) refl)
        (λ p. cc)
        (λ d i ne p.
          let ne_id = other_id r c d id i keeps (ap id_of at) (ap id_of p) ne in
          lookup-insert id i c r.channels ∙ ground (arith, bytes_eq_iff id i, ne_id)))
  Moved-IsExact {r} {c = c} (leaves id at e) holds keeps exact = rw e (
      put-IsExact r c (delete id r.channels) (ended true) exact (λ i p. cc) (λ p. cc)
        (λ d i ne p.
          let ne_id = other_id r c d id i keeps (ap id_of at) (ap id_of p) ne in
          lookup-delete id i r.channels ∙ ground (arith, bytes_eq_iff id i, ne_id)))
  Moved-IsExact (rests told at e) holds keeps exact = rw e exact

  Reach-IsExact : {r : Registry} → Reach ids r → IsExact ids r
  Reach-IsExact start = record { entered = λ d id at. cc; refused = λ d at. cc }
  Reach-IsExact (later {r} run c) =
      Moved-IsExact (step-Moved (ids c) r c) (Reach-HoldsLive run) (Reach-KeepsIds run)
        (Reach-IsExact run)

-- Where Accept gives no id to two connections, a connection with an id is never turned away, and the
-- map holds it under its id exactly while it is live, however the goroutines are scheduled.
pub distinct_exact :
    {ids : ℕ → Option Bytes} {r : Registry}
    → AreDistinct ids
    → Reach ids r
    → (id : Bytes) (d : ℕ) → ids d ≡ some id
    → ((lookup id r.channels ≡ some d) ↔ (r.stage d ≡ live id)) × (r.stage d ≢ ended false)
distinct_exact distinct run id d own =
    let exact = Reach-IsExact distinct run in
    (
      (Reach-HoldsLive run id d, exact.entered d id),
      λ at. let none_given = exact.refused d at in cc,
    )

-- ===== src/Server/Registry/Invariant.antt =====
-- What holds of the channel map and the goroutines of Start under every schedule.
use wxf_im.Prelude.{
  ℕ, ◌≡◌, sym, ap, ◌∙◌, ◌≢◌, inl, inr, true, false, Option, some, arith, ◌==◌, Bool-cases, Bytes,
  bytes_eq-cases,
}
use wxf_im.Prelude.Assoc.{lookup, insert, delete, lookup-insert, lookup-delete}
use wxf_im.Server.Registry.{Stage, named, checked, live, ended, Registry, at_stage_self}
use wxf_im.Server.Registry.Moves.{
  put, Moved, names, fails, refuses, passes, adds, leaves, rests, step-Moved, Reach, start, later,
}

-- Each entry of the map is a connection that is live under the entry's id.
abbrev pub HoldsLive : Registry → Type 0
HoldsLive r = (id : Bytes) (d : ℕ) → lookup id r.channels ≡ some d → r.stage d ≡ live id

-- A step of `c` that leaves the map alone, from a stage that is not live.
put-HoldsLive :
    (r : Registry) (c : ℕ) (st : Stage)
    → HoldsLive r
    → ((id : Bytes) → r.stage c ≢ live id)
    → HoldsLive (put r c r.channels st)
put-HoldsLive r c st h other id d found = elim (Bool-cases (c == d)) [
  | inl e ↦ let same : c ≡ d = ground arith in absurd (other id (ap r.stage same ∙ h id d found))
  | inr e ↦ rw e (h id d found)
]

add-HoldsLive :
    (r : Registry) (c : ℕ) (own : Bytes)
    → HoldsLive r
    → r.stage c ≡ checked own
    → HoldsLive (put r c (insert own c r.channels) (live own))
add-HoldsLive r c own h at id d found = elim (bytes_eq-cases own id) [
  | inl (t, e) ↦
      let same : c ≡ d = ground (arith, rw (lookup-insert own id c r.channels, t) at found) in
      rw (same, at_stage_self r.stage d (live own)) (ap live e)
  | inr (t, e) ↦
      put-HoldsLive r c (live own) h (λ i p. cc) id d
        (rw (lookup-insert own id c r.channels, t) at found)
]

leave-HoldsLive :
    (r : Registry) (c : ℕ) (own : Bytes)
    → HoldsLive r
    → r.stage c ≡ live own
    → HoldsLive (put r c (delete own r.channels) (ended true))
leave-HoldsLive r c own h at id d found = elim (bytes_eq-cases own id) [
  | inl (t, e) ↦ absurd (cc (rw (lookup-delete own id r.channels, t) at found))
  | inr (t, e) ↦
      let old : r.stage d ≡ live id = h id d (rw (lookup-delete own id r.channels, t) at found) in
      elim (Bool-cases (c == d)) [
        | inl q ↦
            let same : c ≡ d = ground arith in
            let own_id : live own ≡ live id = sym at ∙ ap r.stage same ∙ old in
            absurd (e (cc own_id))
        | inr q ↦ rw q old
      ]
]

Moved-HoldsLive :
    {accepts : Option Bytes} {r s : Registry} {c : ℕ}
    → Moved accepts r c s
    → HoldsLive r
    → HoldsLive s
Moved-HoldsLive {r = r} {c = c} (names id at a e) h =
    rw e (put-HoldsLive r c (named id) h (λ i p. cc))
Moved-HoldsLive {r = r} {c = c} (fails at a e) h =
    rw e (put-HoldsLive r c (ended false) h (λ i p. cc))
Moved-HoldsLive {r = r} {c = c} (refuses id o at a e) h =
    rw e (put-HoldsLive r c (ended false) h (λ i p. cc))
Moved-HoldsLive {r = r} {c = c} (passes id at a e) h =
    rw e (put-HoldsLive r c (checked id) h (λ i p. cc))
Moved-HoldsLive {r = r} {c = c} (adds id at e) h = rw e (add-HoldsLive r c id h at)
Moved-HoldsLive {r = r} {c = c} (leaves id at e) h = rw e (leave-HoldsLive r c id h at)
Moved-HoldsLive (rests told at e) h = rw e h

-- Whatever ids Accept gives out, equal ones too, and however the goroutines are scheduled: a channel
-- that the map holds belongs to a connection that is live under this id, so a Push never goes to a
-- connection that has ended or that was refused.
pub Reach-HoldsLive :
    {ids : ℕ → Option Bytes} {r : Registry}
    → Reach ids r
    → (id : Bytes) (d : ℕ) → lookup id r.channels ≡ some d
    → r.stage d ≡ live id
unfolding lookup
Reach-HoldsLive start id d found = cc
Reach-HoldsLive {ids} (later {r} run c) id d found =
    Moved-HoldsLive (step-Moved (ids c) r c) (Reach-HoldsLive run) id d found

-- ===== src/Server/Registry.antt =====
-- The life of the connections of a server, in Start of wxf/tcp/server.go and
-- wxf/websocket/server.go: a goroutine for each connection names it by Accept, looks its id up,
-- adds it and removes it at the end. A schedule says which goroutine goes on.
pub mod Moves
pub mod Invariant
pub mod Distinct
pub mod Race
use wxf_im.Prelude.{
  ℕ, ◌≡◌, sym, ap, ◌∙◌, ◌≢◌, ◌⊎◌, inl, inr, Bool, true, false, Option, none, some, arith, ◌==◌,
  if◌then◌else◌, Option-cases, Bytes, bytes_eq_refl,
}
use wxf_im.Prelude.Assoc.{Assoc, lookup, insert, delete, lookup-insert, lookup-delete}
use wxf_im.Channel.ChannelMap.{add, remove, get}

-- Where the goroutine of a connection stands. `ended true` has told the StateListener.
pub data Stage : Type 0 where
  unnamed : Stage
  named : Bytes → Stage
  checked : Bytes → Stage
  live : Bytes → Stage
  ended : Bool → Stage

-- The ChannelMap, with the number of the connection for its Channel, and the goroutines.
pub record Registry : Type 0 where
  pub channels : Assoc ℕ
  pub stage : ℕ → Stage

abbrev pub at_stage : (ℕ → Stage) → ℕ → Stage → ℕ → Stage
at_stage f c st d = if c == d then st else f d

-- What the goroutine of `c` does next: `accepts` gives what Accept returns, `none` an error.
go_on : Option Bytes → Registry → ℕ → Stage → Registry
go_on (some id) r c unnamed = record r { stage = at_stage r.stage c (named id) }
go_on none r c unnamed = record r { stage = at_stage r.stage c (ended false) }
go_on accepts r c (named id) = elim (get id r.channels) [
  | some other ↦ record r { stage = at_stage r.stage c (ended false) }
  | none ↦ record r { stage = at_stage r.stage c (checked id) }
]
go_on accepts r c (checked id) = record {
  channels = add id c r.channels;
  stage = at_stage r.stage c (live id);
}
go_on accepts r c (live id) = record {
  channels = remove id r.channels;
  stage = at_stage r.stage c (ended true);
}
go_on accepts r c (ended told) = r

-- One step of the goroutine of `c`.
unfoldable pub step : Option Bytes → Registry → ℕ → Registry
unfolding go_on
step accepts r c = go_on accepts r c (r.stage c)

-- The look-up and the Add in one go, as where no other goroutine comes in between.
unfoldable pub register : Registry → ℕ → Registry
unfolding step
register r c = step none (step none r c) c

module _ (accepts : Option Bytes) (r : Registry) (c : ℕ) (id : Bytes) where
  pub step-unnamed :
      r.stage c ≡ unnamed
      → accepts ≡ some id
      → step accepts r c ≡ record r { stage = at_stage r.stage c (named id) }
  unfolding step
  step-unnamed h here = rw (h, here, go_on)

  pub step-fails :
      r.stage c ≡ unnamed
      → accepts ≡ none
      → step accepts r c ≡ record r { stage = at_stage r.stage c (ended false) }
  unfolding step
  step-fails h none_here = rw (h, none_here, go_on)

  pub step-free :
      r.stage c ≡ named id
      → lookup id r.channels ≡ none
      → step accepts r c ≡ record r { stage = at_stage r.stage c (checked id) }
  unfolding step get
  step-free h free = rw (h, free, go_on)

  pub step-taken :
      (d : ℕ)
      → r.stage c ≡ named id
      → lookup id r.channels ≡ some d
      → step accepts r c ≡ record r { stage = at_stage r.stage c (ended false) }
  unfolding step get
  step-taken d h taken = rw (h, taken, go_on)

  pub step-checked :
      r.stage c ≡ checked id
      → step accepts r c
        ≡ record { channels = insert id c r.channels; stage = at_stage r.stage c (live id) }
  unfolding step add
  step-checked h = rw h

  pub step-live :
      r.stage c ≡ live id
      → step accepts r c
        ≡ record { channels = delete id r.channels; stage = at_stage r.stage c (ended true) }
  unfolding step remove
  step-live h = rw h

  pub step-ended : (told : Bool) → r.stage c ≡ ended told → step accepts r c ≡ r
  unfolding step
  step-ended told h = rw h

pub at_stage_self : (f : ℕ → Stage) (c : ℕ) (st : Stage) → at_stage f c st c ≡ st
at_stage_self f c st = ground arith

pub at_stage_other : (f : ℕ → Stage) (c d : ℕ) (st : Stage) → c ≢ d → at_stage f c st d ≡ f d
at_stage_other f c d st ne = ground arith

-- A connection that registers without interruption is live afterwards and reachable under its id, if
-- no other had the id; otherwise it is turned away, and the map is as before.
pub register_lem :
    (r : Registry) (c : ℕ) (id : Bytes)
    → r.stage c ≡ named id
    → ((lookup id r.channels ≡ none)
        × ((register r c).stage c ≡ live id)
        × (lookup id (register r c).channels ≡ some c))
      ⊎ ((d : ℕ) × (lookup id r.channels ≡ some d)
          × ((register r c).stage c ≡ ended false)
          × ((register r c).channels ≡ r.channels))
unfolding register
register_lem r c id h = elim (Option-cases (lookup id r.channels)) [
  | inl free ↦
      let r' : Registry = record r { stage = at_stage r.stage c (checked id) } in
      let e : register r c
          ≡ record { channels = insert id c r.channels; stage = at_stage r'.stage c (live id) } =
        ap (λ s. step none s c) (step-free none r c id h free)
        ∙ step-checked none r' c id (at_stage_self r.stage c (checked id)) in
      inl (
        free,
        ap (λ (s : Registry). s.stage c) e ∙ at_stage_self r'.stage c (live id),
        ap (λ (s : Registry). lookup id s.channels) e
            ∙ lookup-insert id id c r.channels
            ∙ rw (bytes_eq_refl id),
      )
  | inr (d, taken) ↦
      let r' : Registry = record r { stage = at_stage r.stage c (ended false) } in
      let e : register r c ≡ r' =
        ap (λ s. step none s c) (step-taken none r c id d h taken)
        ∙ step-ended none r' c id false (at_stage_self r.stage c (ended false)) in
      inr (
        d,
        taken,
        ap (λ (s : Registry). s.stage c) e ∙ at_stage_self r.stage c (ended false),
        ap (λ (s : Registry). s.channels) e,
      )
]

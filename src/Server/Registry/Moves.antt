-- ===== src/Server/Registry/Moves.antt =====
-- The steps of Server.Registry as a relation, and the states that some schedule reaches.
use wxf_im.Prelude.{
  ℕ, ◌≡◌, refl, inl, inr, Bool, true, false, Option, none, some, [], Option-cases, Bytes,
}
use wxf_im.Prelude.Assoc.{Assoc, lookup, insert, delete}
use wxf_im.Channel.ChannelMap.{add, remove, get}
use wxf_im.Server.Registry.{
  Stage, unnamed, named, checked, live, ended, Registry, at_stage, go_on, step,
}

-- The stage of `c` becomes `st`, and the map `channels`.
abbrev pub put : Registry → ℕ → Assoc ℕ → Stage → Registry
put r c channels st = record { channels = channels; stage = at_stage r.stage c st }

-- What one step of the goroutine of `c` makes of `r`, where Accept returns `accepts`.
pub data Moved (accepts : Option Bytes) (r : Registry) (c : ℕ) (s : Registry) : Type 0 where
  names :
      (id : Bytes)
      → r.stage c ≡ unnamed
      → accepts ≡ some id
      → s ≡ put r c r.channels (named id)
      → Moved accepts r c s
  fails :
      r.stage c ≡ unnamed
      → accepts ≡ none
      → s ≡ put r c r.channels (ended false)
      → Moved accepts r c s
  refuses :
      (id : Bytes) (other : ℕ)
      → r.stage c ≡ named id
      → lookup id r.channels ≡ some other
      → s ≡ put r c r.channels (ended false)
      → Moved accepts r c s
  passes :
      (id : Bytes)
      → r.stage c ≡ named id
      → lookup id r.channels ≡ none
      → s ≡ put r c r.channels (checked id)
      → Moved accepts r c s
  adds :
      (id : Bytes)
      → r.stage c ≡ checked id
      → s ≡ put r c (insert id c r.channels) (live id)
      → Moved accepts r c s
  leaves :
      (id : Bytes)
      → r.stage c ≡ live id
      → s ≡ put r c (delete id r.channels) (ended true)
      → Moved accepts r c s
  rests : (told : Bool) → r.stage c ≡ ended told → s ≡ r → Moved accepts r c s

go_on-Moved :
    (accepts : Option Bytes) (r : Registry) (c : ℕ) (st : Stage)
    → r.stage c ≡ st
    → Moved accepts r c (go_on accepts r c st)
unfolding go_on get add remove
go_on-Moved (some id) r c unnamed h = names id h refl refl
go_on-Moved none r c unnamed h = fails h refl refl
go_on-Moved accepts r c (named id) h = elim (Option-cases (lookup id r.channels)) [
  | inl free ↦ passes id h free (rw (free, go_on))
  | inr (other, taken) ↦ refuses id other h taken (rw (taken, go_on))
]
go_on-Moved accepts r c (checked id) h = adds id h refl
go_on-Moved accepts r c (live id) h = leaves id h refl
go_on-Moved accepts r c (ended told) h = rests told h refl

pub step-Moved :
    (accepts : Option Bytes) (r : Registry) (c : ℕ) → Moved accepts r c (step accepts r c)
unfolding step
step-Moved accepts r c = go_on-Moved accepts r c (r.stage c) refl

-- Before any connection.
abbrev pub empty_registry : Registry
empty_registry = record { channels = []; stage = λ c. unnamed }

-- What a schedule leads to; `ids c` is what Accept returns for the connection `c`.
pub data Reach (ids : ℕ → Option Bytes) : Registry → Type 0 where
  start : Reach ids empty_registry
  later : {r : Registry} → Reach ids r → (c : ℕ) → Reach ids (step (ids c) r c)

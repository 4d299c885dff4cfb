-- ===== src/Channel/Event.antt =====
-- wxf/event.go: an event that happens once.
use wxf_im.Prelude.{
  ℕ, zero, suc, ◌≡◌, refl, Bool, true, false, List, [], ◌∷◌, if◌then◌else◌, Outcome, ok, panicked,
  ◌>>=◌,
}

-- `once` is the sync.Once; `done` says that the channel `c` is closed.
pub record Event : Type 0 where
  pub fired : Bool
  pub done : Bool
  pub once : Bool

-- NewEvent()
abbrev pub new_event : Event
new_event = record { fired = false; done = false; once = false }

-- The function that Fire hands to Once.Do: closing a closed channel panics.
fire_body : Event → Outcome (Bool × Event)
fire_body e =
    if e.done then panicked else ok (true, record { fired = true; done = true; once = true })

-- Fire()
unfoldable pub fire : Event → Outcome (Bool × Event)
unfolding fire_body
fire e = if e.once then ok (false, e) else fire_body e

-- HasFired()
abbrev pub has_fired : Event → Bool
has_fired e = e.fired

-- `n` calls of Fire in a row, in whatever order their callers come.
unfoldable pub fires : ℕ → Event → Outcome (List Bool × Event)
fires zero e = ok ([], e)
fires (suc n) e = do (first, e') ← fire e; (others, e'') ← fires n e'; ok (first ∷ others, e'')

abbrev pub falses : ℕ → List Bool
falses zero = []
falses (suc n) = false ∷ falses n

-- After the first call.
abbrev pub fired_event : Event
fired_event = record { fired = true; done = true; once = true }

fires-fired : (n : ℕ) → fires n fired_event ≡ ok (falses n, fired_event)
unfolding fires fire
fires-fired zero = refl
fires-fired (suc n) = rw (fires-fired n)

-- However often Fire is called on a new event, it does not panic; exactly the first call returns
-- true, and after it the event has fired and its channel is closed.
pub fires-new_event : (n : ℕ) → fires (suc n) new_event ≡ ok (true ∷ falses n, fired_event)
unfolding fires fire
fires-new_event n = rw (fires-fired n)

-- ===== src/Server/Connection/Steps.antt =====
-- The goroutine of a connection as it stands in Start of wxf/tcp/server.go, against the steps of
-- Server.Registry.
use mathlib.Core.Path.{subst}
use wxf_im.Prelude.{
  ℕ, zero, suc, ◌≡◌, refl, sym, ap, ◌∙◌, inl, inr, Bool, true, false, Option, none, some, List, [],
  ◌∷◌, ◌++◌, map, Option-cases, Bytes, Error, Outcome, ok, err, panicked,
}
use wxf_im.Prelude.Assoc.{Assoc, lookup, insert, delete}
use wxf_im.Conn.{Frame}
use wxf_im.Channel.ChannelMap.{add, remove, get}
use wxf_im.Channel.ReadLoop
use wxf_im.Channel.ReadLoop.{readloop}
use wxf_im.Server.Registry.{
  unnamed, named, checked, live, ended, Registry, at_stage, step, at_stage_self, step-unnamed,
  step-fails, step-free, step-taken, step-checked, step-live, step-ended,
}
use wxf_im.Server.Connection.{
  Effect, wrote_close, conn_closed, added, looped, removed, told, channel_closed, run_channel,
  enter, tcp_connection,
}

-- Whether the StateListener is told, and whether the connection is closed.
abbrev pub is_told : List Effect → Bool
is_told [] = false
is_told (told id ∷ es) = true
is_told (e ∷ es) = is_told es

abbrev pub is_closed : List Effect → Bool
is_closed [] = false
is_closed (conn_closed ∷ es) = true
is_closed (channel_closed ∷ es) = true
is_closed (e ∷ es) = is_closed es

-- What Accept answers, as the machine has it.
abbrev pub answer : Outcome Bytes → Option Bytes
answer (ok id) = some id
answer _ = none

-- Steps of one goroutine, none of another in between.
unfoldable pub steps : ℕ → Option Bytes → Registry → ℕ → Registry
steps zero accepts r c = r
steps (suc n) accepts r c = steps n accepts (step accepts r c) c

is_told-looped :
    (es : List ReadLoop.Effect) (id : Bytes)
    → is_told (map looped es ++ removed id ∷ told id ∷ channel_closed ∷ []) ≡ true
is_told-looped [] id = refl
is_told-looped (e ∷ es) id = is_told-looped es id

is_closed-looped :
    (es : List ReadLoop.Effect) (id : Bytes)
    → is_closed (map looped es ++ removed id ∷ told id ∷ channel_closed ∷ []) ≡ true
is_closed-looped [] id = refl
is_closed-looped (e ∷ es) id = is_closed-looped es id

-- The machine ends as the goroutine does.
abbrev AreAgreed : Registry → ℕ → List Effect × Assoc ℕ → Type 0
AreAgreed r' c run =
    (r'.channels ≡ run.1) × (r'.stage c ≡ ended (is_told run.0)) × (is_closed run.0 ≡ true)

module _ (accepts : Option Bytes) (r : Registry) (c : ℕ) where
  -- One step that is known, and those that follow.
  steps-suc :
      (n : ℕ) (r' : Registry)
      → step accepts r c ≡ r'
      → steps (suc n) accepts r c ≡ steps n accepts r' c
  unfolding steps
  steps-suc n r' e = ap (λ s. steps n accepts s c) e

  steps_ended : (n : ℕ) (b : Bool) → r.stage c ≡ ended b → steps n accepts r c ≡ r
  unfolding steps
  steps_ended zero b h = refl
  steps_ended (suc n) b h =
      ap (λ s. steps n accepts s c) (step-ended accepts r c [] b h) ∙ steps_ended n b h

module _ (r : Registry) (c : ℕ) (h : r.stage c ≡ unnamed) where
  steps-none : steps 4 none r c ≡ record r { stage = at_stage r.stage c (ended false) }
  steps-none =
      steps-suc none r c 3 _ (step-fails none r c [] h refl)
      ∙ steps_ended none _ c 3 false (at_stage_self r.stage c (ended false))

  module _ (id : Bytes) where
    r_named : Registry
    r_named = record r { stage = at_stage r.stage c (named id) }

    steps-taken :
        (other : ℕ)
        → lookup id r.channels ≡ some other
        → steps 4 (some id) r c ≡ record r { stage = at_stage r_named.stage c (ended false) }
    unfolding r_named
    steps-taken other taken =
        steps-suc (some id) r c 3 r_named (step-unnamed (some id) r c id h refl)
        ∙ steps-suc (some id) r_named c 2 _
            (step-taken (some id) r_named c id other (at_stage_self r.stage c (named id)) taken)
        ∙ steps_ended (some id) _ c 2 false (at_stage_self r_named.stage c (ended false))

    r_checked : Registry
    r_checked = record r { stage = at_stage r_named.stage c (checked id) }

    r_live : Registry
    r_live = record {
      channels = insert id c r.channels;
      stage = at_stage r_checked.stage c (live id);
    }

    steps-free :
        lookup id r.channels ≡ none
        → steps 4 (some id) r c ≡ record {
          channels = delete id (insert id c r.channels);
          stage = at_stage r_live.stage c (ended true);
        }
    unfolding r_named r_checked r_live steps
    steps-free free =
        steps-suc (some id) r c 3 r_named (step-unnamed (some id) r c id h refl)
        ∙ steps-suc (some id) r_named c 2 r_checked
            (step-free (some id) r_named c id (at_stage_self r.stage c (named id)) free)
        ∙ steps-suc (some id) r_checked c 1 r_live
            (step-checked (some id) r_checked c id (at_stage_self r_named.stage c (checked id)))
        ∙ steps-suc (some id) r_live c 0 _
            (step-live (some id) r_live c id (at_stage_self r_checked.stage c (live id)))

  module _ (id : Bytes) (frames : List (Outcome Frame)) (e : Error)
      (ends : (readloop frames).1 ≡ some e) where
    run_channel-ended :
        (channels : Assoc ℕ)
        → run_channel id (readloop frames) channels ≡ (
          added id ∷ map looped (readloop frames).0 ++ removed id ∷ told id ∷ channel_closed ∷ [],
          delete id channels,
        )
    unfolding remove
    run_channel-ended channels =
        ap (λ (end : Option Error). run_channel id ((readloop frames).0, end) channels) ends

    enter-AreAgreed :
        AreAgreed (steps 4 (some id) r c) c (enter id c frames r.channels (lookup id r.channels))
    unfolding add
    enter-AreAgreed = elim (Option-cases (lookup id r.channels)) [
      | inl free ↦
          rw (free, steps-free id free, run_channel-ended (insert id c r.channels))
            (
              refl,
              at_stage_self (r_live id).stage c (ended true)
                  ∙ ap ended (sym (is_told-looped (readloop frames).0 id)),
              is_closed-looped (readloop frames).0 id,
            )
      | inr (other, taken) ↦
          rw (taken, steps-taken id other taken)
            (refl, at_stage_self (r_named id).stage c (ended false), refl)
    ]

-- The goroutine of a new TCP connection whose Readloop ends, and which no other goroutine
-- interrupts, does what four steps of the machine of Server.Registry do, whatever Accept returns
-- but a panic: the channels are the same afterwards, the StateListener was told exactly where the
-- machine says so, and the connection has been closed.
pub tcp_connection-steps :
    (text : Error → Bytes) (accept : Outcome Bytes) (r : Registry) (c : ℕ)
    (frames : List (Outcome Frame)) (e : Error) (run : List Effect × Assoc ℕ)
    → r.stage c ≡ unnamed
    → (readloop frames).1 ≡ some e
    → tcp_connection text accept c frames r.channels ≡ ok run
    → let r' = steps 4 (answer accept) r c in
      (r'.channels ≡ run.1) × (r'.stage c ≡ ended (is_told run.0)) × (is_closed run.0 ≡ true)
unfolding tcp_connection get
tcp_connection-steps text (ok id) r c frames e run h ends whole =
    let same : enter id c frames r.channels (lookup id r.channels) ≡ run = cc whole in
    subst (AreAgreed (steps 4 (some id) r c) c) same (enter-AreAgreed r c h id frames e ends)
tcp_connection-steps text (err e') r c frames e run h ends whole =
    let same : (wrote_close (text e') ∷ conn_closed ∷ [], r.channels) ≡ run = cc whole in
    subst (AreAgreed (steps 4 none r c) c) same
      (rw (steps-none r c h) (refl, at_stage_self r.stage c (ended false), refl))
tcp_connection-steps text panicked r c frames e run h ends whole = cc

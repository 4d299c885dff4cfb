-- ===== src/Server/Registry/Race.antt =====
-- Two connections whose goroutines, in Start of wxf/tcp/server.go, get the same id from Accept.
use wxf_im.Prelude.{ℕ, ◌≡◌, sym, ap, ◌∙◌, ◌≢◌, true, Option, none, some, Bytes, bytes_eq_refl}
use wxf_im.Prelude.Assoc.{lookup, insert, lookup-delete}
use wxf_im.Server.Registry.{
  Stage, unnamed, named, checked, live, ended, Registry, at_stage, at_stage_self, at_stage_other,
  step, step-unnamed, step-free, step-checked, step-live,
}
use wxf_im.Server.Registry.Moves.{Reach, later}

-- The schedule: each goroutine is named, each looks the id up, each adds its connection.
abbrev pub both_added : (ℕ → Option Bytes) → Registry → ℕ → ℕ → Registry
both_added ids r c d =
    let named₁ = step (ids c) r c in
    let named₂ = step (ids d) named₁ d in
    let checked₁ = step (ids c) named₂ c in
    let checked₂ = step (ids d) checked₁ d in
    let added₁ = step (ids c) checked₂ c in step (ids d) added₁ d

-- From where both have looked the free id up: both are live, and the map holds the second.
both_live :
    (ids : ℕ → Option Bytes) (r : Registry) (c d : ℕ) (id : Bytes)
    → c ≢ d
    → r.stage c ≡ checked id
    → r.stage d ≡ checked id
    → let r' = step (ids d) (step (ids c) r c) d in (r'.stage c ≡ live id) × (r'.stage d ≡ live id)
both_live ids r c d id ne hc hd =
    let f : ℕ → Stage = at_stage r.stage c (live id) in
    let r₁ : Registry = record { channels = insert id c r.channels; stage = f } in
    let r₂ : Registry = record {
      channels = insert id d r₁.channels;
      stage = at_stage f d (live id);
    } in
    let first : step (ids c) r c ≡ r₁ = step-checked (ids c) r c id hc in
    let second : step (ids d) r₁ d ≡ r₂ =
      step-checked (ids d) r₁ d id (at_stage_other r.stage c d (live id) ne ∙ hd) in
    let whole : step (ids d) (step (ids c) r c) d ≡ r₂ =
      ap (λ s. step (ids d) s d) first ∙ second in
    let back : d ≢ c = λ e. ne (sym e) in
    (
      ap (λ (s : Registry). s.stage c) whole
          ∙ at_stage_other f d c (live id) back
          ∙ at_stage_self r.stage c (live id),
      ap (λ (s : Registry). s.stage d) whole ∙ at_stage_self f d (live id),
    )

-- Named and then, with the id free, checked; a look-up changes no entry.
both_checked :
    (ids : ℕ → Option Bytes) (r : Registry) (c d : ℕ) (id : Bytes)
    → c ≢ d
    → ids c ≡ some id
    → ids d ≡ some id
    → r.stage c ≡ unnamed
    → r.stage d ≡ unnamed
    → lookup id r.channels ≡ none
    → let r' = step (ids d) (step (ids c) (step (ids d) (step (ids c) r c) d) c) d in
      (r'.stage c ≡ checked id) × (r'.stage d ≡ checked id)
both_checked ids r c d id ne own_c own_d hc hd free =
    let back : d ≢ c = λ e. ne (sym e) in
    let f₁ : ℕ → Stage = at_stage r.stage c (named id) in
    let f₂ : ℕ → Stage = at_stage f₁ d (named id) in
    let f₃ : ℕ → Stage = at_stage f₂ c (checked id) in
    let f₄ : ℕ → Stage = at_stage f₃ d (checked id) in
    let with_stages : (ℕ → Stage) → Registry = λ g. record r { stage = g } in
    let first : step (ids c) r c ≡ with_stages f₁ = step-unnamed (ids c) r c id hc own_c in
    let second : step (ids d) (with_stages f₁) d ≡ with_stages f₂ =
      step-unnamed (ids d) (with_stages f₁) d id (at_stage_other r.stage c d (named id) ne ∙ hd)
        own_d in
    let third : step (ids c) (with_stages f₂) c ≡ with_stages f₃ =
      step-free (ids c) (with_stages f₂) c id
        (at_stage_other f₁ d c (named id) back ∙ at_stage_self r.stage c (named id)) free in
    let fourth : step (ids d) (with_stages f₃) d ≡ with_stages f₄ =
      step-free (ids d) (with_stages f₃) d id
        (at_stage_other f₂ c d (checked id) ne ∙ at_stage_self f₁ d (named id)) free in
    let whole : step (ids d) (step (ids c) (step (ids d) (step (ids c) r c) d) c) d
        ≡ with_stages f₄ =
      ap (λ s. step (ids d) (step (ids c) (step (ids d) s d) c) d) first
      ∙ ap (λ s. step (ids d) (step (ids c) s c) d) second
      ∙ ap (λ s. step (ids d) s d) third
      ∙ fourth in
    (
      ap (λ (s : Registry). s.stage c) whole
          ∙ at_stage_other f₃ d c (checked id) back
          ∙ at_stage_self f₂ c (checked id),
      ap (λ (s : Registry). s.stage d) whole ∙ at_stage_self f₃ d (checked id),
    )

-- Where two connections are live under one id, the end of the first takes the id out of the map.
first_ends :
    (ids : ℕ → Option Bytes) (r : Registry) (c d : ℕ) (id : Bytes)
    → c ≢ d
    → r.stage c ≡ live id
    → r.stage d ≡ live id
    → let r' = step (ids c) r c in (r'.stage d ≡ live id) × (lookup id r'.channels ≡ none)
first_ends ids r c d id ne hc hd =
    let ends = step-live (ids c) r c id hc in
    (
      ap (λ (s : Registry). s.stage d) ends ∙ at_stage_other r.stage c d (ended true) ne ∙ hd,
      ap (λ (s : Registry). lookup id s.channels) ends
          ∙ lookup-delete id id r.channels
          ∙ rw (bytes_eq_refl id),
    )

-- From every state that some schedule reaches, in which two connections wait for Accept, which gives
-- both the same id, and no connection is in the map under it: a schedule reaches a state in which
-- both are live under that id; and when the first ends, the second is live and not in the map.
pub register_race :
    {ids : ℕ → Option Bytes} {r : Registry}
    → Reach ids r
    → (c d : ℕ) (id : Bytes) → c ≢ d
    → ids c ≡ some id
    → ids d ≡ some id
    → r.stage c ≡ unnamed
    → r.stage d ≡ unnamed
    → lookup id r.channels ≡ none
    → let s = both_added ids r c d in
      let s' = step (ids c) s c in
      Reach ids s
      × (s.stage c ≡ live id)
      × (s.stage d ≡ live id)
      × Reach ids s'
      × (s'.stage d ≡ live id)
      × (lookup id s'.channels ≡ none)
register_race {ids} {r} reached c d id ne own_c own_d hc hd free =
    let checks = both_checked ids r c d id ne own_c own_d hc hd free in
    let r₄ = step (ids d) (step (ids c) (step (ids d) (step (ids c) r c) d) c) d in
    let lives = both_live ids r₄ c d id ne (checks.0) (checks.1) in
    let there : Reach ids (both_added ids r c d) =
      later (later (later (later (later (later reached c) d) c) d) c) d in
    let ends = first_ends ids (both_added ids r c d) c d id ne (lives.0) (lives.1) in
    (there, lives.0, lives.1, later there c, ends.0, ends.1)

-- ===== src/Container/Lifecycle.antt =====
-- Init, Start and shutdown of wxf/container/container.go: the states of the container. Calls of the
-- server and of the registry are effects, in the order of the code; goroutines start there.
use wxf_im.Prelude.{
  ℕ, suc, ◌≡◌, refl, sym, ap, ◌∙◌, inl, inr, Bool, true, false, not, ◌&&◌, ◌||◌, List, [], ◌∷◌,
  ◌++◌, map, ◌==◌, if◌then◌else◌, ==_iff, Bool-cases, Bytes, bytes_eq, Outcome, ok, err, panicked,
  has_initialized, has_started, has_closed, naming_nil,
}

abbrev pub state_uninitialized : ℕ
state_uninitialized = 0

abbrev pub state_initialized : ℕ
state_initialized = 1

abbrev pub state_started : ℕ
state_started = 2

abbrev pub state_closed : ℕ
state_closed = 3

-- The container's variables, with what it reads of its server.
pub record Container : Type 0 where
  pub state : ℕ
  pub has_naming : Bool
  pub deps : List Bytes
  pub has_clients : Bool
  pub service_id : Bytes
  pub public_address : Bytes
  pub public_port : ℕ

pub data Effect : Type 0 where
  start_server register shutdown_server : Effect
  connect : Bytes → Effect
  deregister : Bytes → Effect
  unsubscribe : Bytes → Effect

member : Bytes → List Bytes → Bool
member d [] = false
member d (e ∷ es) = bytes_eq e d || member d es

-- The loop over deps of Init: a dependency is entered once.
unfoldable pub add_deps : List Bytes → List Bytes → List Bytes
unfolding member
add_deps [] known = known
add_deps (d ∷ ds) known = add_deps ds (if member d known then known else known ++ d ∷ [])

-- Init(srv, deps...)
unfoldable pub init : List Bytes → Container → Outcome (List Effect) × Container
init deps c =
    if c.state == state_uninitialized
    then (
      ok [],
      record c { state = state_initialized; deps = add_deps deps c.deps; has_clients = true },
    )
    else (err has_initialized, c)

-- c.Srv.PublicAddress() != "" && c.Srv.PublicPort() != 0
registers : Container → List Effect
registers c =
    if not (bytes_eq c.public_address []) && not (c.public_port == 0) then register ∷ [] else []

-- Start() up to the wait for a signal.
unfoldable pub start : Container → Outcome (List Effect) × Container
unfolding registers
start c =
    if not c.has_naming
    then (err naming_nil, c)
    else if c.state == state_initialized
    then (
      ok ((start_server ∷ map connect c.deps) ++ registers c),
      record c { state = state_started },
    )
    else (err has_started, c)

-- shutdown(), which Start calls after the signal; the errors of its calls are logged.
unfoldable pub shutdown : Container → Outcome (List Effect) × Container
shutdown c =
    if c.state == state_started
    then (
      ok (shutdown_server ∷ deregister c.service_id ∷ map unsubscribe c.deps),
      record c { state = state_closed },
    )
    else (err has_closed, c)

pub data Call : Type 0 where
  inits : List Bytes → Call
  starts : Call
  shuts : Call

unfoldable pub call : Container → Call → Outcome (List Effect) × Container
call c (inits deps) = init deps c
call c starts = start c
call c shuts = shutdown c

-- The calls that succeed, in a sequence of calls.
abbrev pub passed : Outcome (List Effect) → Call → List Call → List Call
passed (ok es) k rest = k ∷ rest
passed (err e) k rest = rest
passed panicked k rest = rest

unfoldable pub successes : Container → List Call → List Call
successes c [] = []
successes c (k ∷ ks) = let (r, c') = call c k in passed r k (successes c' ks)

abbrev pub stage_of : Call → ℕ
stage_of (inits deps) = 0
stage_of starts = 1
stage_of shuts = 2

-- The calls go through the stages one by one, from stage `n` on.
abbrev pub Stages : ℕ → List Call → Type 0
Stages n [] = Unit {0}
Stages n (k ∷ ks) = (stage_of k ≡ n) × Stages (suc n) ks

at_state : (n : ℕ) (c : Container) (k : ℕ) → c.state ≡ n → (c.state == k) ≡ true → k ≡ n
at_state n c k h e = sym ((==_iff c.state k).0 e) ∙ h

at_stage : (n : ℕ) (c : Container) (k : ℕ) → c.state ≡ n → (c.state == k) ≡ true → suc k ≡ suc n
at_stage n c k h e = ap suc (at_state n c k h e)

start-unnamed : (c : Container) → c.has_naming ≡ false → start c ≡ (err naming_nil, c)
unfolding start
start-unnamed c d = simp d

start-initialized :
    (c : Container)
    → c.has_naming ≡ true
    → (c.state == 1) ≡ true
    → start c ≡ (ok ((start_server ∷ map connect c.deps) ++ registers c), record c { state = 2 })
unfolding start
start-initialized c d e = simp (d, e)

start-other :
    (c : Container) → c.has_naming ≡ true → (c.state == 1) ≡ false → start c ≡ (err has_started, c)
unfolding start
start-other c d e = simp (d, e)

successes_from-Stages :
    (n : ℕ) (c : Container) (ks : List Call) → c.state ≡ n → Stages n (successes c ks)
unfolding successes call init shutdown
successes_from-Stages n c [] h = tt
successes_from-Stages n c (inits deps ∷ ks) h = elim (Bool-cases (c.state == 0)) [
  | inl e ↦
      let c' = record c { state = 1; deps = add_deps deps c.deps; has_clients = true } in
      let rest = successes_from-Stages (suc n) c' ks (at_stage n c 0 h e) in
      rw e (at_state n c 0 h e, rest)
  | inr e ↦ let rest = successes_from-Stages n c ks h in rw e rest
]
successes_from-Stages n c (starts ∷ ks) h = elim (Bool-cases c.has_naming) [
  | inr d ↦ let rest = successes_from-Stages n c ks h in rw (start-unnamed c d) rest
  | inl d ↦ elim (Bool-cases (c.state == 1)) [
    | inl e ↦
        let rest = successes_from-Stages (suc n) (record c { state = 2 }) ks (at_stage n c 1 h e) in
        rw (start-initialized c d e) (at_state n c 1 h e, rest)
    | inr e ↦ let rest = successes_from-Stages n c ks h in rw (start-other c d e) rest
  ]
]
successes_from-Stages n c (shuts ∷ ks) h = elim (Bool-cases (c.state == 2)) [
  | inl e ↦
      let rest = successes_from-Stages (suc n) (record c { state = 3 }) ks (at_stage n c 2 h e) in
      rw e (at_state n c 2 h e, rest)
  | inr e ↦ let rest = successes_from-Stages n c ks h in rw e rest
]

-- Whatever calls are made in whatever order on a container in whatever state, those that succeed
-- are the stages Init, Start and shutdown in this order and without a gap, from the stage on at
-- which the container stands: so each of the three succeeds once at most.
pub successes-Stages : (c : Container) (ks : List Call) → Stages c.state (successes c ks)
successes-Stages c ks = successes_from-Stages c.state c ks refl

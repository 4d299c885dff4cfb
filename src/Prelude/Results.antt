-- ===== src/Prelude/Results.antt =====
-- Go's (value, error) pairs and run-time panics as values, with the errors that the program returns.
use native.Mathlib.Omega.{arith}
use Prim.Native.Nat.{ℕ}
use mathlib.Core.Path.{◌≡◌, refl}
use mathlib.Core.Bool.{Bool, true, false}
use mathlib.Core.Option.{Option, none, some}

-- `external` stands for an error value that a third-party package returns.
pub data Error : Type 0 where
  eof unexpected_eof write_failed : Error
  not_logic_packet not_basic_packet bad_magic : Error
  channel_closed remote_closed channel_not_found : Error
  session_nil dispatcher_nil cache_nil : Error
  has_initialized has_started has_closed naming_nil : Error
  packet_nil command_empty channel_id_empty : Error
  service_not_found no_services no_client : Error
  dest_server_incorrect dest_channels_nil : Error
  unexpected_protocol dialer_nil : Error
  client_connected connection_nil conn_nil : Error
  invalid_command expired_token already_subscribed state_listener_nil : Error
  login_failed user_id_invalid : Error
  external : ℕ → Error

-- `panicked` is the Go run-time panic.
pub data Outcome {ℓ} (A : Type ℓ) : Type ℓ where
  ok : A → Outcome A
  err : Error → Outcome A
  panicked : Outcome A

-- What follows a Go call, `if err != nil { return err }` included; a panic goes on up.
infixl 5 ◌>>=◌ ◌>>◌
abbrev pub ◌>>=◌ {ℓ κ} : {V : Type ℓ} {W : Type κ} → Outcome V → (V → Outcome W) → Outcome W
panicked >>= follow = panicked
err reason >>= follow = err reason
ok value >>= follow = follow value

abbrev pub ◌>>◌ {κ} : {W : Type κ} → Outcome (Unit {0}) → Outcome W → Outcome W
first >> second = first >>= λ _. second

-- An early return with an error where the test fails.
abbrev pub guard : Bool → Error → Outcome (Unit {0})
guard passed reason = elim passed [ false ↦ err reason | true ↦ ok tt ]

abbrev pub or_fail {ℓ} : {A : Type ℓ} → Option A → Error → Outcome A
or_fail none e = err e
or_fail (some a) e = ok a

-- A chain that ends in a value went through its first call.
pub >>=-eq-ok {ℓ κ} :
    {V : Type ℓ} {W : Type κ} (call : Outcome V) (follow : V → Outcome W) {result : W}
    → (call >>= follow) ≡ ok result
    → (value : V) × (call ≡ ok value) × (follow value ≡ ok result)
>>=-eq-ok panicked follow whole = cc
>>=-eq-ok (err reason) follow whole = cc
>>=-eq-ok (ok value) follow whole = (value, refl, whole)

pub guard-eq-ok :
    (passed : Bool) (reason : Error) (u : Unit {0}) → guard passed reason ≡ ok u → passed ≡ true
guard-eq-ok true reason u h = refl
guard-eq-ok false reason u h = cc

pub or_fail-eq-ok {ℓ} :
    {A : Type ℓ} (o : Option A) (reason : Error) (a : A) → or_fail o reason ≡ ok a → o ≡ some a
or_fail-eq-ok none reason a h = cc
or_fail-eq-ok (some x) reason a h = ground arith

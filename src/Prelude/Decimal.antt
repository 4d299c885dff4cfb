-- ===== src/Prelude/Decimal.antt =====
-- fmt's %d on numbers that are not negative.
use Prim.Native.Nat.{ℕ, zero, suc, ◌+◌, ◌-◌, ◌*◌, ◌/◌, ◌%◌, ◌<◌}
use mathlib.Core.Path.{◌≡◌, refl}
use mathlib.Core.Logic.{◌≢◌, inl, inr}
use mathlib.Core.List.{[], ◌∷◌, ◌++◌}
use native.Mathlib.Omega.{arith}
use wxf_im.Prelude.Tests.{ltb, if◌then◌else◌, Bool-cases}
use wxf_im.Prelude.Lists.{All, All-append}
use wxf_im.Prelude.Strings.{Bytes}

digits : ℕ → ℕ → Bytes
digits zero n = []
digits (suc fuel) n =
    let front = digits fuel (n / 10) in
    if ltb n 10 then (n + b'0') ∷ [] else front ++ (n % 10 + b'0') ∷ []

-- Each round divides by ten, so `n + 1` rounds are enough.
unfoldable pub decimal : ℕ → Bytes
unfolding digits
decimal n = digits (suc n) n

read_digits : ℕ → Bytes → ℕ
read_digits acc [] = acc
read_digits acc (c ∷ cs) = read_digits (acc * 10 + (c - b'0')) cs

read_digits-concat :
    (acc : ℕ) (cs : Bytes) (c : ℕ)
    → read_digits acc (cs ++ c ∷ []) ≡ read_digits acc cs * 10 + (c - b'0')
unfolding read_digits
read_digits-concat acc [] c = refl
read_digits-concat acc (x ∷ cs) c = read_digits-concat (acc * 10 + (x - b'0')) cs c

read_digits-digits : (fuel n : ℕ) → n < fuel → read_digits 0 (digits fuel n) ≡ n
unfolding digits read_digits
read_digits-digits zero n h = absurd (omega arith)
read_digits-digits (suc fuel) n h = elim (Bool-cases (ltb n 10)) [
  | inl e ↦ rw e (omega arith)
  | inr e ↦
      let smaller : n / 10 < fuel = ground arith in
      rw
        (
          e,
          read_digits-concat 0 (digits fuel (n / 10)) (n % 10 + b'0'),
          read_digits-digits fuel (n / 10) smaller,
        )
        (omega arith)
]

-- Different numbers print differently.
pub decimal-injective : (n m : ℕ) → decimal n ≡ decimal m → n ≡ m
unfolding decimal
decimal-injective n m e =
    cc (read_digits-digits (suc n) n (omega arith), read_digits-digits (suc m) m (omega arith))

digits-Lacks : (sep fuel n : ℕ) → b'9' < sep → All (λ b. b ≢ sep) (digits fuel n)
unfolding digits
digits-Lacks sep zero n h = tt
digits-Lacks sep (suc fuel) n h = elim (Bool-cases (ltb n 10)) [
  | inl e ↦ rw e (ground arith, tt)
  | inr e ↦ rw e (
      All-append (λ b. b ≢ sep) (digits fuel (n / 10)) ((n % 10 + b'0') ∷ [])
        (digits-Lacks sep fuel (n / 10) h) (ground arith, tt))
]

pub decimal-Lacks : (sep n : ℕ) → b'9' < sep → All (λ b. b ≢ sep) (decimal n)
unfolding decimal
decimal-Lacks sep n h = digits-Lacks sep (suc n) n h

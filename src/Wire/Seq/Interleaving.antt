-- ===== src/Wire/Seq/Interleaving.antt =====
-- wxf/wire/seq.go under concurrent callers: a call of Next is a chain of atomic actions, and a
-- schedule says which caller makes its next action.
use mathlib.Core.Path.{subst}
use wxf_im.Prelude.{
  ℕ, ◌^◌, ◌≤◌, ◌<◌, ◌≡◌, inl, inr, List, [], ◌∷◌, arith, ◌==◌, if◌then◌else◌, Bool-cases, take,
}
use wxf_im.Wire.Seq.{max_uint32, add_uint32, next}

-- Where a caller stands: before the AddUint32, between it and the CompareAndSwap, or done.
pub data Pc : Type 0 where
  calling : Pc
  swapping : Pc
  returned : ℕ → Pc

pub record Callers : Type 0 where
  pub num : ℕ
  pub pc : ℕ → Pc

abbrev pub at_pc : (ℕ → Pc) → ℕ → Pc → ℕ → Pc
at_pc f i p j = if i == j then p else f j

-- One atomic action of caller `i`. A caller that has returned calls again.
act : Callers → ℕ → Pc → Callers
act s i calling =
    let n = add_uint32 s.num in
    if n == max_uint32
    then record { num = n; pc = at_pc s.pc i swapping }
    else record { num = n; pc = at_pc s.pc i (returned n) }
act s i swapping =
    if s.num == max_uint32
    then record { num = 1; pc = at_pc s.pc i (returned 1) }
    else record { num = s.num; pc = at_pc s.pc i calling }
act s i (returned n) = record { num = s.num; pc = at_pc s.pc i calling }

unfoldable pub step : Callers → ℕ → Callers
unfolding act
step s i = act s i (s.pc i)

unfoldable pub run : Callers → List ℕ → Callers
run s [] = s
run s (i ∷ is) = run (step s i) is

abbrev pub PcOk : Pc → Type 0
PcOk calling = Unit {0}
PcOk swapping = Unit {0}
PcOk (returned n) = n < max_uint32

pub record IsSafe (s : Callers) : Type 0 where
  pub word : s.num < 2 ^ 32
  pub below : (i : ℕ) → PcOk (s.pc i)

at_pc-PcOk :
    (f : ℕ → Pc) (i : ℕ) (p : Pc) → ((j : ℕ) → PcOk (f j)) → PcOk p → (j : ℕ) → PcOk (at_pc f i p j)
at_pc-PcOk f i p h hp j = elim (Bool-cases (i == j)) [ inl e ↦ rw e hp | inr e ↦ rw e (h j) ]

act-IsSafe : (s : Callers) (i : ℕ) (p : Pc) → IsSafe s → IsSafe (act s i p)
unfolding act
act-IsSafe s i calling h = elim (Bool-cases (add_uint32 s.num == max_uint32)) [
  | inl e ↦ rw e (record { word = omega arith; below = at_pc-PcOk s.pc i swapping h.below tt })
  | inr e ↦ rw e (record {
    word = omega arith;
    below = at_pc-PcOk s.pc i (returned (add_uint32 s.num)) h.below (ground arith);
  })
]
act-IsSafe s i swapping h = elim (Bool-cases (s.num == max_uint32)) [
  | inl e ↦
      rw e (record {
        word = omega arith;
        below = at_pc-PcOk s.pc i (returned 1) h.below (omega arith);
      })
  | inr e ↦ rw e (record { word = h.word; below = at_pc-PcOk s.pc i calling h.below tt })
]
act-IsSafe s i (returned n) h = record {
  word = h.word;
  below = at_pc-PcOk s.pc i calling h.below tt;
}

run-IsSafe : (s : Callers) (is : List ℕ) → IsSafe s → IsSafe (run s is)
unfolding run step
run-IsSafe s [] h = h
run-IsSafe s (i ∷ is) h = run-IsSafe (step s i) is (act-IsSafe s i (s.pc i) h)

-- Whatever the interleaving from a safe state, the counter stays a uint32 and no call returns the
-- largest uint32.
pub run-lt-max :
    (s : Callers) (is : List ℕ) (i n : ℕ)
    → IsSafe s
    → (run s is).pc i ≡ returned n
    → ((run s is).num < 2 ^ 32) × (n < max_uint32)
run-lt-max s is i n h e = let safe = run-IsSafe s is h in (safe.word, subst PcOk e (safe.below i))

-- A caller that is not interrupted does what the sequential Next does.
pub run_alone :
    (s : Callers) (i : ℕ)
    → s.pc i ≡ calling
    → let r = next s.num in
      (k : ℕ) × (k ≤ 2)
      × ((run s (take k (i ∷ i ∷ []))).pc i ≡ returned r.0)
      × ((run s (take k (i ∷ i ∷ []))).num ≡ r.1)
unfolding run step act next
run_alone s i h = elim (Bool-cases (add_uint32 s.num == max_uint32)) [
  | inl e ↦ (2, omega arith, ground arith, ground arith)
  | inr e ↦ (1, omega arith, ground arith, ground arith)
]

-- While one caller stands between its AddUint32 and its CompareAndSwap at the largest uint32, a
-- call that another one begins returns 0.
pub overlap_returns_zero :
    (s : Callers) (i j : ℕ)
    → s.num ≡ max_uint32
    → s.pc i ≡ swapping
    → s.pc j ≡ calling
    → ((step s j).pc j ≡ returned 0) × ((step s j).num ≡ 0)
unfolding step
overlap_returns_zero s i j full hi hj = rw hj (unfold act in rw full (ground arith))

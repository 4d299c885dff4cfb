-- ===== src/Wire/Seq/Values.antt =====
-- The numbers that wxf/wire/seq.go hands out when its calls do not overlap.
use wxf_im.Prelude.{ℕ, zero, suc, ◌+◌, ◌-◌, ◌%◌, ◌≤◌, ◌<◌, ◌≡◌, ◌∙◌, ◌≢◌, arith}
use wxf_im.Wire.Seq.{max_uint32, next, initial, after_calls}

-- The counter's range: neither 0, which pkt.New takes for "no number yet", nor the largest uint32.
abbrev pub InRange : ℕ → Type 0
InRange n = (1 ≤ n) × (n < max_uint32)

pub next-InRange : (num : ℕ) → InRange num → InRange (next num).0 × ((next num).1 ≡ (next num).0)
unfolding next
next-InRange num h = ground arith

next-ring : (n p : ℕ) → n ≡ p % (max_uint32 - 1) + 1 → (next n).1 ≡ suc p % (max_uint32 - 1) + 1
unfolding next
next-ring n p e = ground arith

-- After `k` calls the counter has gone `k` places round the ring 1 … 2^32 - 2.
pub after_calls-ring :
    (k num : ℕ) → InRange num → after_calls k num ≡ (num - 1 + k) % (max_uint32 - 1) + 1
unfolding after_calls
after_calls-ring zero num h = omega arith
after_calls-ring (suc k) num h =
    next-ring (after_calls k num) (num - 1 + k) (after_calls-ring k num h) ∙ omega arith

-- From a counter in its range, numbers handed out fewer than 2^32 - 2 calls apart differ.
pub after_calls_distinct :
    (i j num : ℕ)
    → InRange num
    → i < j
    → j < i + (max_uint32 - 1)
    → after_calls i num ≢ after_calls j num
after_calls_distinct i j num h lt near e =
    omega (arith, after_calls-ring i num h, after_calls-ring j num h)

pub after_calls-InRange : (k : ℕ) → InRange (after_calls k initial)
after_calls-InRange k = omega (arith, after_calls-ring k initial (omega arith))

-- ===== src/Wire/Seq.antt =====
-- wxf/wire/seq.go: the 32-bit sequence counter.
pub mod Values
pub mod Interleaving
use wxf_im.Prelude.{ℕ, zero, suc, ◌+◌, ◌-◌, ◌%◌, ◌^◌, ◌==◌, if◌then◌else◌, Option, none, some}

abbrev pub max_uint32 : ℕ
max_uint32 = 2 ^ 32 - 1

-- atomic.AddUint32(&s.num, 1)
abbrev pub add_uint32 : ℕ → ℕ
add_uint32 num = (num + 1) % 2 ^ 32

-- `(s *sequence) Next()` with no other caller in between: the returned number and the new `num`.
-- With nobody in between the CompareAndSwap finds `next`, so it succeeds and `s.Next()` is not
-- called again.
unfoldable pub next : ℕ → ℕ × ℕ
next num = let n = add_uint32 num in if n == max_uint32 then (1, 1) else (n, n)

-- var Seq = sequence{num: 1}
abbrev pub initial : ℕ
initial = 1

-- `k` calls in a row: the counter after them.
unfoldable pub after_calls : ℕ → ℕ → ℕ
after_calls zero num = num
after_calls (suc k) num = (next (after_calls k num)).1

-- ===== src/Prelude/Split.antt =====
-- strings.Split, strings.SplitN(…, 2) and strings.Join on a one-byte separator.
use Prim.Native.Nat.{ℕ}
use mathlib.Core.Path.{◌≡◌, refl, ap, ◌∙◌}
use mathlib.Core.Logic.{◌≢◌}
use mathlib.Core.List.{List, [], ◌∷◌, ◌++◌}
use native.Mathlib.Omega.{arith}
use wxf_im.Prelude.Tests.{◌==◌, if◌then◌else◌}
use wxf_im.Prelude.Lists.{All}
use wxf_im.Prelude.Strings.{Bytes}

-- strings.Join
unfoldable pub join : ℕ → List Bytes → Bytes
join sep [] = []
join sep (x ∷ []) = x
join sep (x ∷ y ∷ ys) = x ++ sep ∷ join sep (y ∷ ys)

abbrev pub cons_head : ℕ → List Bytes → List Bytes
cons_head b [] = (b ∷ []) ∷ []
cons_head b (f ∷ fs) = (b ∷ f) ∷ fs

-- strings.Split
unfoldable pub split : ℕ → Bytes → List Bytes
split sep [] = [] ∷ []
split sep (b ∷ bs) = let rest = split sep bs in if b == sep then [] ∷ rest else cons_head b rest

-- strings.SplitN(s, sep, 2)
unfoldable pub split_two : ℕ → Bytes → List Bytes
split_two sep [] = [] ∷ []
split_two sep (b ∷ bs) =
    let rest = split_two sep bs in if b == sep then [] ∷ bs ∷ [] else cons_head b rest

abbrev pub Lacks : ℕ → Bytes → Type 0
Lacks sep bs = All (λ b. b ≢ sep) bs

split-Lacks : (sep : ℕ) (x : Bytes) → Lacks sep x → split sep x ≡ x ∷ []
unfolding split
split-Lacks sep [] h = refl
split-Lacks sep (b ∷ x) h = ground (arith, split-Lacks sep x h.1)

split-append :
    (sep : ℕ) (x rest : Bytes) → Lacks sep x → split sep (x ++ sep ∷ rest) ≡ x ∷ split sep rest
unfolding split
split-append sep [] rest h = ground arith
split-append sep (b ∷ x) rest h = ground (arith, split-append sep x rest h.1)

-- Split takes a non-empty join apart again, where no part holds the separator.
pub split-join :
    (sep : ℕ) (x : Bytes) (xs : List Bytes)
    → All (Lacks sep) (x ∷ xs)
    → split sep (join sep (x ∷ xs)) ≡ x ∷ xs
unfolding join
split-join sep x [] h = split-Lacks sep x h.0
split-join sep x (y ∷ ys) h =
    split-append sep x (join sep (y ∷ ys)) h.0 ∙ ap (◌∷◌ x) (split-join sep y ys h.1)

pub split_two-append :
    (sep : ℕ) (x rest : Bytes) → Lacks sep x → split_two sep (x ++ sep ∷ rest) ≡ x ∷ rest ∷ []
unfolding split_two
split_two-append sep [] rest h = ground arith
split_two-append sep (b ∷ x) rest h = ground (arith, split_two-append sep x rest h.1)

pub split_two-Lacks : (sep : ℕ) (x : Bytes) → Lacks sep x → split_two sep x ≡ x ∷ []
unfolding split_two
split_two-Lacks sep [] h = refl
split_two-Lacks sep (b ∷ x) h = ground (arith, split_two-Lacks sep x h.1)

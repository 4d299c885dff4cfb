-- ===== src/Prelude/Perms.antt =====
-- Orders that a scheduler picks: permutations of a list.
use native.Mathlib.Decide.{ℕ_discrete}
use Prim.Native.Nat.{suc}
use mathlib.Core.Path.{◌≡◌, refl, ap, ◌∙◌}
use mathlib.Core.List.{List, [], ◌∷◌, map, Perm}
use mathlib.Core.List
use mathlib.Core.List.Permᴰ.{Permᴰ, nil, cons, swap, trans}
use mathlib.Core.Logic.{∥∥₁_elim}
use wxf_im.Prelude.Lists.{length}

module _ {ℓ} {A : Type ℓ} where
  Permᴰ-length : {xs ys : List A} → Permᴰ xs ys → length xs ≡ length ys
  Permᴰ-length nil = refl
  Permᴰ-length (cons e p) = ap suc (Permᴰ-length p)
  Permᴰ-length (swap e f) = refl
  Permᴰ-length (trans p q) = Permᴰ-length p ∙ Permᴰ-length q

  pub Perm-length : {xs ys : List A} → Perm xs ys → length xs ≡ length ys
  Perm-length {xs} {ys} p = ∥∥₁_elim p (hlevel ℕ_discrete) Permᴰ-length

module _ {ℓ κ} {A : Type ℓ} {B : Type κ} where
  pub Perm-map : (f : A → B) {xs ys : List A} → Perm xs ys → Perm (map f xs) (map f ys)
  Perm-map f p = List.Perm.map f p

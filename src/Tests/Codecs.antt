-- ===== src/Tests/Codecs.antt =====
-- Codecs that know one or two messages: they show that the hypothesis on protobuf can be met.
use mathlib.Core.Logic.{ite, if_pos, if_neg}
use wxf_im.Prelude.{
  ℕ, suc, ◌+◌, List, Option, arith, get_elem?, ap, ◌≡◌, refl, sym, ◌∙◌, ◌≢◌, none, some, [], ◌∷◌,
  Bytes,
}
use wxf_im.Wire.Pkt.Message.{Codec, Restores}

none-ne-some : {A : Type 0} {a : A} → none ≡ some a → ⊥
none-ne-some e = cc

module _ {M : Type 0} (d : Discrete M) (known : M) (bytes : Bytes) where
  abbrev pub only : Codec M
  only = record { marshal = λ m. ite (d m known) (some bytes) none; unmarshal = λ bs. some known }

  pub only-marshal : only.marshal known ≡ some bytes
  only-marshal = if_pos (d known known) refl (some bytes) none

  pub only-Restores : Restores only
  only-Restores m bs e = elim (d m known) [
    | yes p ↦ rw p
    | no q ↦ absurd (none-ne-some (rw (if_neg (d m known) q (some bytes) none) at e))
  ]

-- A codec that knows the messages of a list, and writes one as its position.
module _ {M : Type 0} (d : Discrete M) where
  abbrev pub marshal_at : ℕ → List M → M → Option Bytes
  marshal_at n [] m = none
  marshal_at n (k ∷ ks) m = ite (d m k) (some (n ∷ [])) (marshal_at (suc n) ks m)

  abbrev pub message_at : List M → Bytes → Option M
  message_at known [] = none
  message_at known (n ∷ more) = get_elem? known n

  abbrev pub several : List M → Codec M
  several known = record { marshal = marshal_at 0 known; unmarshal = message_at known }

  pub marshal_at-first : (n : ℕ) (k : M) (ks : List M) → marshal_at n (k ∷ ks) k ≡ some (n ∷ [])
  marshal_at-first n k ks = if_pos (d k k) refl (some (n ∷ [])) (marshal_at (suc n) ks k)

  pub marshal_at-later :
      (n : ℕ) (k : M) (ks : List M) (m : M)
      → m ≢ k
      → marshal_at n (k ∷ ks) m ≡ marshal_at (suc n) ks m
  marshal_at-later n k ks m ne = if_neg (d m k) ne (some (n ∷ [])) (marshal_at (suc n) ks m)

  marshal_at-eq-some :
      (n : ℕ) (ks : List M) (m : M) (bs : Bytes)
      → marshal_at n ks m ≡ some bs
      → (j : ℕ) × (bs ≡ (n + j) ∷ []) × (get_elem? ks j ≡ some m)
  marshal_at-eq-some n [] m bs e = absurd (none-ne-some e)
  marshal_at-eq-some n (k ∷ ks) m bs e = elim (d m k) [
    | yes p ↦
        let found = sym (if_pos (d m k) p (some (n ∷ [])) (marshal_at (suc n) ks m)) ∙ e in
        let same : n ∷ [] ≡ bs = cc found in
        (0, sym same ∙ ap (λ i. i ∷ []) (omega arith), ap some (sym p))
    | no q ↦
        let later = sym (if_neg (d m k) q (some (n ∷ [])) (marshal_at (suc n) ks m)) ∙ e in
        let (j, at_j, found) = marshal_at-eq-some (suc n) ks m bs later in
        (suc j, at_j ∙ ap (λ i. i ∷ []) (omega arith), found)
  ]

  pub several-Restores : (known : List M) → Restores (several known)
  several-Restores known m bs e =
      let (j, at_j, found) = marshal_at-eq-some 0 known m bs e in
      let same : 0 + j ≡ j = omega arith in rw (at_j, same) found

  pub second-marshal :
      (a b : M) (rest : List M) → b ≢ a → (several (a ∷ b ∷ rest)).marshal b ≡ some (1 ∷ [])
  second-marshal a b rest ne = marshal_at-later 0 a (b ∷ rest) b ne ∙ marshal_at-first 1 b rest

  pub third-marshal :
      (a b c : M) (rest : List M)
      → c ≢ a
      → c ≢ b
      → (several (a ∷ b ∷ c ∷ rest)).marshal c ≡ some (2 ∷ [])
  third-marshal a b c rest ne ne' =
      marshal_at-later 0 a (b ∷ c ∷ rest) c ne
      ∙ marshal_at-later 1 b (c ∷ rest) c ne'
      ∙ marshal_at-first 2 c rest

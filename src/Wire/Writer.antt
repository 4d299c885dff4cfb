-- ===== src/Wire/Writer.antt =====
-- An io.Writer: what it has taken so far, and how many bytes it takes before it fails
-- (`none` is a bytes.Buffer, which never fails).
use wxf_im.Prelude.{
  ℕ, ◌-◌, ◌≤◌, ◌<◌, ◌≡◌, ◌≢◌, inl, inr, true, false, Bool-cases, refl, ap, ◌∙◌, Option, none, some,
  [], ◌∷◌, ◌++◌, arith, Bytes, Outcome, ok, err, panicked, write_failed, leb, if◌then◌else◌, length,
  take, length-append,
}
use mathlib.Core.List.{append_assoc, append-nil}

pub record Writer : Type 0 where
  pub out : Bytes
  pub room : Option ℕ

-- The result of a call that writes: its error value, and the writer after it.
abbrev pub Written : Type 0
Written = Outcome (Unit {0}) × Writer

abbrev pub buffer : Bytes → Writer
buffer bs = record { out = bs; room = none }

write_room : Option ℕ → Bytes → Bytes → Written
write_room none out bs = (ok tt, record { out = out ++ bs; room = none })
write_room (some k) out bs =
    if leb (length bs) k
    then (ok tt, record { out = out ++ bs; room = some (k - length bs) })
    else (err write_failed, record { out = out ++ take k bs; room = some 0 })

-- w.Write(bs)
unfoldable pub write : Bytes → Writer → Written
unfolding write_room
write bs w = write_room w.room w.out bs

-- `if err := …; err != nil { return err }` and what follows.
abbrev pub and_then : Written → (Writer → Written) → Written
and_then (ok u, w) k = k w
and_then (err e, w) k = (err e, w)
and_then (panicked, w) k = (panicked, w)

take-append_le : (k : ℕ) (a b : Bytes) → k ≤ length a → take k (a ++ b) ≡ take k a
take-append_le ℕ.zero a b h = refl
take-append_le (ℕ.suc k) [] b h = absurd (omega arith)
take-append_le (ℕ.suc k) (x ∷ a) b h = ap (◌∷◌ x) (take-append_le k a b (omega arith))

take-append_ge : (k : ℕ) (a b : Bytes) → length a ≤ k → take k (a ++ b) ≡ a ++ take (k - length a) b
take-append_ge k [] b h = ground (arith)
take-append_ge ℕ.zero (x ∷ a) b h = absurd (omega arith)
take-append_ge (ℕ.suc k) (x ∷ a) b h =
    ap (◌∷◌ x) (take-append_ge k a b (omega arith) ∙ ap (λ n. a ++ take n b) (omega arith))

-- Two writes are one write of both, on every writer, also where the first or the second fails.
pub write-append : (a b : Bytes) (w : Writer) → and_then (write a w) (write b) ≡ write (a ++ b) w
unfolding write
write-append a b w = go w.room w.out
  where
    go :
        (r : Option ℕ) (o : Bytes) → and_then (write_room r o a) (write b) ≡ write_room r o (a ++ b)
    go none o = rw append_assoc
    go (some k) o = ground (
      arith,
      length-append a b,
      append_assoc o a b,
      append_assoc o a (take (k - length a) b),
      take-append_le k a b,
      take-append_ge k a b,
    )

pub write_nil : (w : Writer) → write [] w ≡ (ok tt, w)
unfolding write
write_nil w = go w.room w.out
  where
    go : (r : Option ℕ) (o : Bytes) → write_room r o [] ≡ (ok tt, record { out = o; room = r })
    go none o = rw append-nil
    go (some k) o = ground (arith, append-nil o)

-- Work that starts with two writes.
pub and_then-and_then :
    (m : Written) (f g : Writer → Written)
    → and_then (and_then m f) g ≡ and_then m (λ w. and_then (f w) g)
and_then-and_then (ok u, w) f g = refl
and_then-and_then (err e, w) f g = refl
and_then-and_then (panicked, w) f g = refl

pub write-buffer : (bs out : Bytes) → write bs (buffer out) ≡ (ok tt, buffer (out ++ bs))
unfolding write
write-buffer bs out = refl

write_room-ne-panicked : (r : Option ℕ) (o bs : Bytes) → (write_room r o bs).0 ≢ panicked
unfolding write_room
write_room-ne-panicked none o bs = λ q. cc
write_room-ne-panicked (some k) o bs = elim (Bool-cases (leb (length bs) k)) [
  | inl e ↦ rw e (λ q. cc)
  | inr e ↦ rw e (λ q. cc)
]

pub write-ne-panicked : (bs : Bytes) (w : Writer) → (write bs w).0 ≢ panicked
unfolding write
write-ne-panicked bs w = write_room-ne-panicked w.room w.out bs

pub and_then-ne-panicked :
    (m : Written) (k : Writer → Written)
    → m.0 ≢ panicked
    → ((w : Writer) → (k w).0 ≢ panicked)
    → (and_then m k).0 ≢ panicked
and_then-ne-panicked (ok u, w) k h g = g w
and_then-ne-panicked (err e, w) k h g = λ q. cc
and_then-ne-panicked (panicked, w) k h g = absurd (h refl)

-- A write for which there is room, and one for which there is not.
pub write_fits :
    (bs : Bytes) (w : Writer) (k : ℕ)
    → w.room ≡ some k
    → length bs ≤ k
    → write bs w ≡ (ok tt, record { out = w.out ++ bs; room = some (k - length bs) })
unfolding write write_room
write_fits bs w k e h =
    let test : leb (length bs) k ≡ true = ground arith in rw (e, write_room, test) refl

pub write_short :
    (bs : Bytes) (w : Writer) (k : ℕ)
    → w.room ≡ some k
    → k < length bs
    → write bs w ≡ (err write_failed, record { out = w.out ++ take k bs; room = some 0 })
unfolding write write_room
write_short bs w k e h =
    let test : leb (length bs) k ≡ false = ground arith in rw (e, write_room, test) refl

-- ===== src/Channel/WriteLoop/Order.antt =====
-- What writeLoop of wxf/channel.go puts on the connection.
use mathlib.Core.List.{append_assoc, append-nil, map-append}
use wxf_im.Prelude.{
  ℕ, zero, suc, ◌≡◌, refl, sym, ap, ◌∙◌, inl, inr, Bool, ◌&&◌, none, List, [], ◌∷◌, ◌++◌, map,
  arith, ltb, Bool-cases, length, Bytes, ok,
}
use wxf_im.Wire.Writer.{Writer, write, buffer, write-buffer}
use wxf_im.Conn.{Frame, op_binary}
use wxf_im.Conn.Tcp.{write_frame}
use wxf_im.Conn.Tcp.RoundTrip.{frame_bytes, write_frame_lem, stream}
use wxf_im.Channel.WriteLoop.{
  Loop, waiting, draining, stopped, Chan, capacity, push, written, select_round, drain_round,
  loop_round, Step, pushes, writes, step, run, accepted_of, accepted_by,
}

-- The binary frames of some payloads.
abbrev pub frames : List Bytes → List Frame
frames = map λ p. record { op_code = op_binary; payload = p }

-- A connection that takes everything.
abbrev pub IsOpen : Chan → Type 0
IsOpen c = c.conn.room ≡ none

-- What has been written and what waits in the buffer.
abbrev pub total : Chan → Bytes
total c = c.conn.out ++ stream (frames c.queue)

-- A write on an open connection.
pub write_frame-open :
    (p : Bytes) (w : Writer)
    → w.room ≡ none
    → write_frame op_binary p w
      ≡ (ok tt, buffer (w.out ++ frame_bytes (record { op_code = op_binary; payload = p })))
write_frame-open p w h =
    write_frame_lem (record { op_code = op_binary; payload = p }) w (omega arith)
    ∙ ap (write (frame_bytes (record { op_code = op_binary; payload = p }))) same
    ∙ write-buffer (frame_bytes (record { op_code = op_binary; payload = p })) w.out
  where
    same : w ≡ buffer w.out
    same = ground arith

stream-append : (fs gs : List Frame) → stream (fs ++ gs) ≡ stream fs ++ stream gs
stream-append [] gs = refl
stream-append (f ∷ fs) gs =
    ap (◌++◌ (frame_bytes f)) (stream-append fs gs)
    ∙ sym (append_assoc (frame_bytes f) (stream fs) (stream gs))

written-total :
    (p : Bytes) (ps : List Bytes) (l : Loop) (c : Chan)
    → IsOpen c
    → c.queue ≡ p ∷ ps
    → IsOpen (written (write_frame op_binary p c.conn) ps l c)
      × (total (written (write_frame op_binary p c.conn) ps l c) ≡ total c)
unfolding written
written-total p ps l c h q =
    rw (write_frame-open p c.conn h, written)
      (
        refl,
        rw q (
            append_assoc c.conn.out (frame_bytes (record { op_code = op_binary; payload = p }))
              (stream (frames ps))),
      )

select_round-total :
    (b : Bool) (q : List Bytes) (c : Chan)
    → IsOpen c
    → c.queue ≡ q
    → IsOpen (select_round b q c) × (total (select_round b q c) ≡ total c)
unfolding select_round
select_round-total b [] c h e = elim (Bool-cases c.closed.done) [
  | inl d ↦ rw d (h, refl)
  | inr d ↦ rw d (h, refl)
]
select_round-total b (p ∷ ps) c h e = elim (Bool-cases (b && c.closed.done)) [
  | inl d ↦ rw d (h, refl)
  | inr d ↦ rw d (written-total p ps (draining (length ps)) c h e)
]

drain_round-total :
    (n : ℕ) (q : List Bytes) (c : Chan)
    → IsOpen c
    → c.queue ≡ q
    → IsOpen (drain_round n q c) × (total (drain_round n q c) ≡ total c)
unfolding drain_round
drain_round-total n [] c h e = (h, refl)
drain_round-total n (p ∷ ps) c h e = written-total p ps (draining n) c h e

-- Steps of the goroutine keep the total.
loop_round-total :
    (b : Bool) (l : Loop) (c : Chan)
    → IsOpen c
    → IsOpen (loop_round b l c) × (total (loop_round b l c) ≡ total c)
unfolding loop_round
loop_round-total b waiting c h = select_round-total b c.queue c h refl
loop_round-total b (draining zero) c h = (h, refl)
loop_round-total b (draining (suc n)) c h = drain_round-total n c.queue c h refl
loop_round-total b (stopped e) c h = (h, refl)

frames-append :
    (ps qs : List Bytes) → stream (frames (ps ++ qs)) ≡ stream (frames ps) ++ stream (frames qs)
frames-append ps qs = ap stream (map-append _ ps qs) ∙ stream-append (frames ps) (frames qs)

-- A push adds the frame of its payload if it is accepted, and nothing otherwise.
push-total :
    (p : Bytes) (c : Chan) (later : List Bytes)
    → IsOpen c
    → IsOpen (push p c).1
      × (total (push p c).1 ++ stream (frames later)
          ≡ total c ++ stream (frames (accepted_of (push p c).0 p later)))
unfolding push
push-total p c later h = elim (Bool-cases c.closed.fired) [
  | inl f ↦ rw f (h, refl)
  | inr f ↦ elim (Bool-cases (ltb (length c.queue) capacity)) [
    | inr full ↦ rw (f, full) (h, refl)
    | inl free ↦
        rw (f, free) (h, rw (frames-append c.queue (p ∷ [])) (simp (append_assoc, append-nil)))
  ]
]

-- On a connection that does not fail, whatever the callers and the goroutine do in whatever order,
-- the bytes written and the frames of the payloads still in the buffer are together those of the
-- start followed by the frame of every accepted payload, in the order of acceptance: nothing is
-- lost, doubled or overtaken.
pub run-total :
    (c : Chan) (ss : List Step)
    → IsOpen c
    → total (run c ss) ≡ total c ++ stream (frames (accepted_by c ss))
unfolding run accepted_by step
run-total c [] h = sym (append-nil (total c))
run-total c (pushes p ∷ ss) h =
    let (open_after, e) = push-total p c (accepted_by (step c (pushes p)) ss) h in
    run-total (push p c).1 ss open_after ∙ e
run-total c (writes b ∷ ss) h =
    let (open_after, e) = loop_round-total b c.loop c h in
    run-total (loop_round b c.loop c) ss open_after
    ∙ ap (λ t. t ++ stream (frames (accepted_by (loop_round b c.loop c) ss))) e

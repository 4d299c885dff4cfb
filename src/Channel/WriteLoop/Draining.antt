-- ===== src/Channel/WriteLoop/Draining.antt =====
-- The buffer of a channel, and what writeLoop of wxf/channel.go does with it in the end.
use wxf_im.Prelude.{
  ℕ, zero, suc, ◌+◌, ◌-◌, ◌*◌, ◌≤◌, ◌≡◌, refl, sym, ap, ◌∙◌, ◌≢◌, inl, inr, Bool, false, ◌&&◌,
  Option, List, [], ◌∷◌, ◌++◌, arith, ltb, ltb→lt, Bool-cases, length, length-append, Bytes, Error,
  Outcome, ok, err, panicked,
}
use mathlib.Core.List.{append-nil}
use wxf_im.Wire.Writer.{Writer}
use wxf_im.Conn.{op_binary}
use wxf_im.Conn.Tcp.{write_frame}
use wxf_im.Conn.Tcp.RoundTrip.{stream}
use wxf_im.Channel.Event.{has_fired}
use wxf_im.Channel.WriteLoop.{
  Chan, Loop, Step, waiting, draining, stopped, pushes, writes, capacity, push, written,
  select_round, drain_round, loop_round, step, run, accepted_by,
}
use wxf_im.Channel.WriteLoop.Order.{frames, IsOpen, total, write_frame-open, run-total}

-- How many payloads the inner loop still takes: it must find them in the buffer, or it blocks in it.
abbrev pub owed : Loop → ℕ
owed waiting = 0
owed (draining n) = n
owed (stopped e) = 0

pub record IsReady (c : Chan) : Type 0 where
  pub fits : length c.queue ≤ capacity
  pub enough : owed c.loop ≤ length c.queue

written-IsReady :
    (r : Outcome (Unit {0}) × Writer) (rest : List Bytes) (l : Loop) (c : Chan)
    → length rest ≤ capacity
    → owed l ≤ length rest
    → IsReady (written r rest l c)
unfolding written
written-IsReady (ok u, w) rest l c h k = record { fits = h; enough = k }
written-IsReady (err e, w) rest l c h k = record { fits = h; enough = omega arith }
written-IsReady (panicked, w) rest l c h k = record { fits = h; enough = omega arith }

select_round-IsReady :
    (b : Bool) (q : List Bytes) (c : Chan)
    → c.queue ≡ q
    → IsReady c
    → owed c.loop ≡ 0
    → IsReady (select_round b q c)
unfolding select_round
select_round-IsReady b [] c e h idle = elim (Bool-cases c.closed.done) [
  | inl d ↦ rw d (record { fits = h.fits; enough = omega arith })
  | inr d ↦ rw d (record { fits = h.fits; enough = h.enough })
]
select_round-IsReady b (p ∷ ps) c e h idle =
    let fits : length ps ≤ capacity = omega (arith, h.fits, ap length e) in
    elim (Bool-cases (b && c.closed.done)) [
      | inl d ↦ rw d (record { fits = h.fits; enough = omega arith })
      | inr d ↦ rw d (
          written-IsReady (write_frame op_binary p c.conn) ps (draining (length ps)) c fits
            (omega arith))
    ]

drain_round-IsReady :
    (n : ℕ) (q : List Bytes) (c : Chan)
    → c.queue ≡ q
    → IsReady c
    → suc n ≤ length q
    → IsReady (drain_round n q c)
unfolding drain_round
drain_round-IsReady n [] c e h k = absurd (omega arith)
drain_round-IsReady n (p ∷ ps) c e h k =
    written-IsReady (write_frame op_binary p c.conn) ps (draining n) c
      (omega (arith, h.fits, ap length e)) (omega arith)

loop_round-IsReady :
    (b : Bool) (l : Loop) (c : Chan) → c.loop ≡ l → IsReady c → IsReady (loop_round b l c)
unfolding loop_round
loop_round-IsReady b waiting c e h = select_round-IsReady b c.queue c refl h (ap owed e)
loop_round-IsReady b (draining zero) c e h = record { fits = h.fits; enough = omega arith }
loop_round-IsReady b (draining (suc n)) c e h =
    drain_round-IsReady n c.queue c refl h (omega (arith, h.enough, ap owed e))
loop_round-IsReady b (stopped o) c e h = h

push-IsReady : (p : Bytes) (c : Chan) → IsReady c → IsReady (push p c).1
unfolding push
push-IsReady p c h = elim (Bool-cases (has_fired c.closed)) [
  | inl f ↦ rw f (record { fits = h.fits; enough = h.enough })
  | inr f ↦ elim (Bool-cases (ltb (length c.queue) capacity)) [
    | inr full ↦ rw (f, full) (record { fits = h.fits; enough = h.enough })
    | inl free ↦
        let one : length (c.queue ++ p ∷ []) ≡ length c.queue + 1 =
          omega (arith, length-append c.queue (p ∷ [])) in
        let below = ltb→lt _ _ free in
        rw (f, free)
          (record { fits = omega (arith, one, below); enough = omega (arith, one, h.enough) })
  ]
]

-- Under every schedule of pushes and rounds of the writing goroutine, the buffer holds five
-- payloads at most, and the inner loop of writeLoop finds as many payloads in it as it still has
-- to take.
pub run-IsReady : (c : Chan) (ss : List Step) → IsReady c → IsReady (run c ss)
unfolding run step
run-IsReady c [] h = h
run-IsReady c (pushes p ∷ ss) h = run-IsReady (push p c).1 ss (push-IsReady p c h)
run-IsReady c (writes b ∷ ss) h =
    run-IsReady (loop_round b c.loop c) ss (loop_round-IsReady b c.loop c refl h)

-- `n` rounds in a row, where nobody pushes.
abbrev pub rounds : ℕ → List Step
rounds zero = []
rounds (suc n) = writes false ∷ rounds n

-- The rounds that it takes at most until the buffer is empty.
abbrev pub measure : List Bytes → Loop → ℕ
measure q waiting = 2 * length q
measure q (draining n) = 2 * length q + 1
measure q (stopped e) = 0

-- The channel is in use: open, not closed, and its goroutine has not ended.
pub record IsRunning (c : Chan) : Type 0 where
  pub takes : IsOpen c
  pub not_closed : c.closed.done ≡ false
  pub goes_on : (e : Option Error) → c.loop ≢ stopped e

-- A round from the loop's state `l` at the buffer `q`.
pub record Progress (c d : Chan) : Type 0 where
  pub running : IsRunning d
  pub less : measure d.queue d.loop ≤ measure c.queue c.loop - 1

writes_one :
    (p : Bytes) (ps : List Bytes) (l : Loop) (c : Chan)
    → IsRunning c
    → ((e : Option Error) → l ≢ stopped e)
    → measure ps l ≤ measure c.queue c.loop - 1
    → Progress c (written (write_frame op_binary p c.conn) ps l c)
unfolding written
writes_one p ps l c h alive le =
    rw (write_frame-open p c.conn h.takes, written)
      (record {
        running = record { takes = refl; not_closed = h.not_closed; goes_on = alive };
        less = le;
      })

waits-Progress :
    (q : List Bytes) (c : Chan)
    → c.queue ≡ q
    → c.loop ≡ waiting
    → IsRunning c
    → Progress c (select_round false q c)
unfolding select_round
waits-Progress [] c e at h =
    simp h.not_closed
      (record { running = h; less = omega (arith, ap (λ l. measure c.queue l) at, ap length e) })
waits-Progress (p ∷ ps) c e at h =
    writes_one p ps (draining (length ps)) c h (λ o. λ q. cc)
      (omega (arith, ap (λ l. measure c.queue l) at, ap length e))

drains-Progress :
    (n : ℕ) (q : List Bytes) (c : Chan)
    → c.queue ≡ q
    → c.loop ≡ draining (suc n)
    → IsReady c
    → IsRunning c
    → Progress c (drain_round n q c)
unfolding drain_round
drains-Progress n [] c e at ready h = absurd (omega (arith, ready.enough, ap owed at, ap length e))
drains-Progress n (p ∷ ps) c e at ready h =
    writes_one p ps (draining n) c h (λ o. λ q. cc)
      (omega (arith, ap (λ l. measure c.queue l) at, ap length e))

round-Progress :
    (l : Loop) (c : Chan) → c.loop ≡ l → IsReady c → IsRunning c → Progress c (loop_round false l c)
unfolding loop_round
round-Progress waiting c at ready h = waits-Progress c.queue c refl at h
round-Progress (draining zero) c at ready h = record {
  running = record { takes = h.takes; not_closed = h.not_closed; goes_on = λ o. λ q. cc };
  less = omega (arith, ap (λ l. measure c.queue l) at);
}
round-Progress (draining (suc n)) c at ready h = drains-Progress n c.queue c refl at ready h
round-Progress (stopped e) c at ready h = absurd (h.goes_on e at)

measure_zero :
    (q : List Bytes) (l : Loop) → ((e : Option Error) → l ≢ stopped e) → measure q l ≤ 0 → q ≡ []
measure_zero [] l alive h = refl
measure_zero (p ∷ ps) waiting alive h = absurd (omega arith)
measure_zero (p ∷ ps) (draining n) alive h = absurd (omega arith)
measure_zero (p ∷ ps) (stopped e) alive h = absurd (alive e refl)

rounds-empty :
    (n : ℕ) (c : Chan)
    → IsReady c
    → IsRunning c
    → measure c.queue c.loop ≤ n
    → (run c (rounds n)).queue ≡ []
unfolding run step
rounds-empty zero c ready h le = measure_zero c.queue c.loop h.goes_on le
rounds-empty (suc n) c ready h le =
    let one = round-Progress c.loop c refl ready h in
    rounds-empty n (loop_round false c.loop c) (loop_round-IsReady false c.loop c refl ready)
      one.running (omega (arith, one.less))

accepted_by-rounds : (n : ℕ) (c : Chan) → accepted_by c (rounds n) ≡ []
unfolding accepted_by
accepted_by-rounds zero c = refl
accepted_by-rounds (suc n) c = accepted_by-rounds n (step c (writes false))

-- While a channel is in use and nobody pushes, writeLoop comes to an end of its work: after two
-- rounds for each payload in the buffer, and one more if it is in the inner loop, the buffer is
-- empty, and what was in it stands on the connection, in order.
pub rounds-drain :
    (n : ℕ) (c : Chan)
    → IsReady c
    → IsRunning c
    → measure c.queue c.loop ≤ n
    → ((run c (rounds n)).queue ≡ [])
      × ((run c (rounds n)).conn.out ≡ c.conn.out ++ stream (frames c.queue))
rounds-drain n c ready h le =
    let empty = rounds-empty n c ready h le in
    let d = run c (rounds n) in
    let kept : total d ≡ total c ++ [] =
      run-total c (rounds n) h.takes
      ∙ ap (λ ps. total c ++ stream (frames ps)) (accepted_by-rounds n c) in
    let whole : d.conn.out ++ [] ≡ total d =
      ap (λ q. d.conn.out ++ stream (frames q)) (sym empty) in
    (empty, sym (append-nil d.conn.out) ∙ whole ∙ kept ∙ append-nil (total c))

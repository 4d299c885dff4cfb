-- ===== src/Channel/WriteLoop/Received.antt =====
-- From Push of wxf/channel.go to ReadFrame of the client at the other end of the connection.
use wxf_im.Prelude.{
  ℕ, zero, suc, ◌+◌, ◌*◌, ◌≤◌, ◌<◌, ◌≡◌, refl, ap, ◌∙◌, ◌≢◌, inl, inr, Bool, true, false, Option,
  some, List, [], ◌∷◌, ◌++◌, arith, ltb, Bool-cases, length, All, Bytes, Error,
}
use wxf_im.Conn.{op_binary}
use wxf_im.Conn.Tcp.{read_frames, write_frame}
use wxf_im.Conn.Tcp.RoundTrip.{Fits, stream, read_frames-stream}
use wxf_im.Channel.WriteLoop.{
  Chan, Loop, Step, waiting, draining, stopped, pushes, writes, capacity, push, written,
  select_round, drain_round, loop_round, step, run, accepted_by,
}
use wxf_im.Channel.WriteLoop.Order.{frames, total, write_frame-open, run-total}
use wxf_im.Channel.WriteLoop.Draining.{
  IsReady, run-IsReady, IsRunning, measure, rounds, rounds-drain,
}

written-IsRunning :
    (p : Bytes) (ps : List Bytes) (l : Loop) (c : Chan)
    → IsRunning c
    → ((e : Option Error) → l ≢ stopped e)
    → IsRunning (written (write_frame op_binary p c.conn) ps l c)
unfolding written
written-IsRunning p ps l c h alive =
    rw (write_frame-open p c.conn h.takes, written)
      (record { takes = refl; not_closed = h.not_closed; goes_on = alive })

select_round-IsRunning :
    (b : Bool) (q : List Bytes) (c : Chan) → IsRunning c → IsRunning (select_round b q c)
unfolding select_round
select_round-IsRunning b [] c h = simp h.not_closed h
select_round-IsRunning true (p ∷ ps) c h =
    simp h.not_closed (written-IsRunning p ps (draining (length ps)) c h (λ e. λ q. cc))
select_round-IsRunning false (p ∷ ps) c h =
    written-IsRunning p ps (draining (length ps)) c h (λ e. λ q. cc)

drain_round-IsRunning :
    (n : ℕ) (q : List Bytes) (c : Chan) → IsRunning c → IsRunning (drain_round n q c)
unfolding drain_round
drain_round-IsRunning n [] c h = h
drain_round-IsRunning n (p ∷ ps) c h = written-IsRunning p ps (draining n) c h (λ e. λ q. cc)

loop_round-IsRunning : (b : Bool) (l : Loop) (c : Chan) → IsRunning c → IsRunning (loop_round b l c)
unfolding loop_round
loop_round-IsRunning b waiting c h = select_round-IsRunning b c.queue c h
loop_round-IsRunning b (draining zero) c h = record {
  takes = h.takes;
  not_closed = h.not_closed;
  goes_on = λ e. λ q. cc;
}
loop_round-IsRunning b (draining (suc n)) c h = drain_round-IsRunning n c.queue c h
loop_round-IsRunning b (stopped e) c h = h

push-IsRunning : (p : Bytes) (c : Chan) → IsRunning c → IsRunning (push p c).1
unfolding push
push-IsRunning p c h = elim (Bool-cases c.closed.fired) [
  | inl f ↦ simp f h
  | inr f ↦ elim (Bool-cases (ltb (length c.queue) capacity)) [
    | inr full ↦ simp (f, full) h
    | inl free ↦
        rw (f, free) (record { takes = h.takes; not_closed = h.not_closed; goes_on = h.goes_on })
  ]
]

-- No schedule of pushes and rounds puts a channel out of use.
pub run-IsRunning : (c : Chan) (ss : List Step) → IsRunning c → IsRunning (run c ss)
unfolding run step
run-IsRunning c [] h = h
run-IsRunning c (pushes p ∷ ss) h = run-IsRunning (push p c).1 ss (push-IsRunning p c h)
run-IsRunning c (writes b ∷ ss) h =
    run-IsRunning (loop_round b c.loop c) ss (loop_round-IsRunning b c.loop c h)

measure_le : (q : List Bytes) (l : Loop) → length q ≤ capacity → measure q l ≤ 2 * capacity + 1
measure_le q waiting h = omega arith
measure_le q (draining n) h = omega arith
measure_le q (stopped e) h = omega arith

-- A channel that is in use, whose buffer and connection are empty, serves any schedule of pushes
-- and rounds, and then eleven rounds without a push: the client's ReadFrame then gets from the
-- connection exactly the payloads that Push accepted, each once, whole, and in the order of
-- acceptance, where each is shorter than 2^32 bytes, with more fuel than there are bytes.
pub pushed_received :
    (c : Chan) (ss : List Step) (fuel : ℕ)
    → IsReady c
    → IsRunning c
    → total c ≡ []
    → All Fits (frames (accepted_by c ss))
    → length (stream (frames (accepted_by c ss))) < fuel
    → read_frames fuel (run (run c ss) (rounds (2 * capacity + 1))).conn.out
      ≡ (frames (accepted_by c ss), some Error.eof)
pushed_received c ss fuel ready running empty fits fuelled =
    let d = run c ss in
    let (drained, out) =
      rounds-drain (2 * capacity + 1) d (run-IsReady c ss ready) (run-IsRunning c ss running)
        (measure_le d.queue d.loop (run-IsReady c ss ready).fits) in
    let whole : (run d (rounds (2 * capacity + 1))).conn.out ≡ stream (frames (accepted_by c ss)) =
      out
      ∙ run-total c ss running.takes
      ∙ ap (λ t. t ++ stream (frames (accepted_by c ss))) empty in
    ap (read_frames fuel) whole ∙ read_frames-stream (frames (accepted_by c ss)) fuel fits fuelled

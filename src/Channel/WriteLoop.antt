-- ===== src/Channel/WriteLoop.antt =====
-- Push and writeLoop of wxf/channel.go: callers put payloads into the buffer `writeChan`, and one
-- goroutine writes them to the connection. A schedule says who makes the next step.
pub mod Order
pub mod Draining
pub mod Received
use wxf_im.Prelude.{
  ℕ, zero, suc, ◌+◌, Bool, ◌&&◌, Option, none, some, List, [], ◌∷◌, ◌++◌, ltb, if◌then◌else◌,
  length, Bytes, Error, Outcome, ok, err, panicked, channel_closed,
}
use wxf_im.Wire.Writer.{Writer}
use wxf_im.Conn.{Frame, op_binary}
use wxf_im.Conn.Tcp.{write_frame}
use wxf_im.Channel.Event.{Event, has_fired}

-- make(chan []byte, 5)
abbrev pub capacity : ℕ
capacity = 5

-- Where the goroutine stands: at the select, in the inner loop with so many rounds left, or ended.
pub data Loop : Type 0 where
  waiting : Loop
  draining : ℕ → Loop
  stopped : Option Error → Loop

pub record Chan : Type 0 where
  pub queue : List Bytes
  pub conn : Writer
  pub closed : Event
  pub loop : Loop

-- What a call of Push comes to: nil, an error, or no return while the buffer is full.
pub data PushResult : Type 0 where
  accepted : PushResult
  refused : Error → PushResult
  blocked : PushResult

-- Push(payload)
unfoldable pub push : Bytes → Chan → PushResult × Chan
push payload c =
    if has_fired c.closed
    then (refused channel_closed, c)
    else if ltb (length c.queue) capacity
    then (accepted, record c { queue = c.queue ++ payload ∷ [] })
    else (blocked, c)

-- WriteFrame(OpBinary, payload), and where the goroutine goes on.
written : Outcome (Unit {0}) × Writer → List Bytes → Loop → Chan → Chan
written (ok u, w) rest l c = record c { queue = rest; conn = w; loop = l }
written (err e, w) rest l c = record c { queue = rest; conn = w; loop = stopped (some e) }
written (panicked, w) rest l c = record c { queue = rest; conn = w; loop = stopped none }

-- One round at the select: a payload if there is one, or the end if the event has fired. Where both
-- are ready Go chooses one of them, `prefer_done` says which.
select_round : Bool → List Bytes → Chan → Chan
unfolding written
select_round prefer_done [] c = if c.closed.done then record c { loop = stopped none } else c
select_round prefer_done (p ∷ ps) c =
    if prefer_done && c.closed.done
    then record c { loop = stopped none }
    else written (write_frame op_binary p c.conn) ps (draining (length ps)) c

-- One round of the inner loop; at an empty buffer it waits.
drain_round : ℕ → List Bytes → Chan → Chan
unfolding written
drain_round n [] c = c
drain_round n (p ∷ ps) c = written (write_frame op_binary p c.conn) ps (draining n) c

loop_round : Bool → Loop → Chan → Chan
unfolding select_round drain_round
loop_round prefer_done waiting c = select_round prefer_done c.queue c
loop_round prefer_done (draining zero) c = record c { loop = waiting }
loop_round prefer_done (draining (suc n)) c = drain_round n c.queue c
loop_round prefer_done (stopped e) c = c

-- A step: some caller pushes, or the goroutine makes a round.
pub data Step : Type 0 where
  pushes : Bytes → Step
  writes : Bool → Step

unfoldable pub step : Chan → Step → Chan
unfolding loop_round
step c (pushes payload) = (push payload c).1
step c (writes prefer_done) = loop_round prefer_done c.loop c

unfoldable pub run : Chan → List Step → Chan
run c [] = c
run c (s ∷ ss) = run (step c s) ss

-- The payloads that Push accepted along a schedule, in the order of acceptance.
abbrev pub accepted_of : PushResult → Bytes → List Bytes → List Bytes
accepted_of accepted payload rest = payload ∷ rest
accepted_of (refused e) payload rest = rest
accepted_of blocked payload rest = rest

unfoldable pub accepted_by : Chan → List Step → List Bytes
accepted_by c [] = []
accepted_by c (pushes payload ∷ ss) =
    accepted_of (push payload c).0 payload (accepted_by (step c (pushes payload)) ss)
accepted_by c (writes b ∷ ss) = accepted_by (step c (writes b)) ss

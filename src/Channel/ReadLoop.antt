-- ===== src/Channel/ReadLoop.antt =====
-- Readloop of wxf/channel.go: what a channel does with the frames of its connection.
use wxf_im.Prelude.{
  ℕ, suc, ◌≡◌, refl, ap, Bool, true, not, ◌&&◌, Option, none, some, List, [], ◌∷◌, ◌++◌, map, arith,
  ◌==◌, if◌then◌else◌, length, keep, All, Bytes, Error, Outcome, ok, err, panicked, remote_closed,
}
use wxf_im.Conn.{Frame, op_close, op_ping}

-- What a round does: the deadline that it sets first, and then a pong or a goroutine for a message.
-- The goroutines run beside the loop, so the messages may be received in another order.
pub data Effect : Type 0 where
  set_write_deadline : Effect
  wrote_pong : Effect
  spawned : Bytes → Effect

-- One frame: it ends the loop, or has effects.
abbrev pub on_frame : Frame → Outcome (List Effect)
on_frame f =
    if f.op_code == op_close
    then err remote_closed
    else if f.op_code == op_ping
    then ok (wrote_pong ∷ [])
    else if length f.payload == 0
    then ok []
    else ok (spawned f.payload ∷ [])

-- Readloop(msgLst) over what ReadFrame returns, call by call: the effects, and the error that ends
-- the loop. Without one the loop still waits for the next frame.
unfoldable pub readloop : List (Outcome Frame) → List Effect × Option Error
readloop [] = (set_write_deadline ∷ [], none)
readloop (ok f ∷ fs) =
    let (later, e) = readloop fs in
    elim (on_frame f) [
      | ok now ↦ (set_write_deadline ∷ now ++ later, e)
      | err e' ↦ (set_write_deadline ∷ [], some e')
      | panicked ↦ (set_write_deadline ∷ [], none)
    ]
readloop (err e ∷ fs) = (set_write_deadline ∷ [], some e)
readloop (panicked ∷ fs) = (set_write_deadline ∷ [], none)

-- The messages among some effects.
abbrev pub messages : List Effect → List Bytes
messages [] = []
messages (spawned p ∷ es) = p ∷ messages es
messages (set_write_deadline ∷ es) = messages es
messages (wrote_pong ∷ es) = messages es

abbrev pub pongs : List Effect → ℕ
pongs [] = 0
pongs (wrote_pong ∷ es) = suc (pongs es)
pongs (set_write_deadline ∷ es) = pongs es
pongs (spawned p ∷ es) = pongs es

-- A frame that is a message: neither a close nor a ping, and not empty.
abbrev pub is_message : Frame → Bool
is_message f =
    not (f.op_code == op_close) && not (f.op_code == op_ping) && not (length f.payload == 0)

abbrev pub is_open : Frame → Bool
is_open f = not (f.op_code == op_close)

abbrev pub is_ping : Frame → Bool
is_ping f = f.op_code == op_ping

abbrev pub all_ok : List Frame → List (Outcome Frame)
all_ok = map ok

messages-append : (es ds : List Effect) → messages (es ++ ds) ≡ messages es ++ messages ds
messages-append [] ds = refl
messages-append (spawned p ∷ es) ds = ap (◌∷◌ p) (messages-append es ds)
messages-append (set_write_deadline ∷ es) ds = messages-append es ds
messages-append (wrote_pong ∷ es) ds = messages-append es ds

-- Frames before the end of the connection: each non-empty one that is no ping is handed on once, in
-- the order of arrival of the goroutines' start; each ping is answered by one pong; a close frame
-- ends the loop, and what comes behind it has no effect.
pub readloop-frames :
    (before : List Frame) (close : Frame) (after : List (Outcome Frame))
    → All (λ f. is_open f ≡ true) before
    → close.op_code ≡ op_close
    → let r = readloop (all_ok before ++ ok close ∷ after) in
      (messages r.0 ≡ map (λ f. f.payload) (keep is_message before))
      × (pongs r.0 ≡ length (keep is_ping before))
      × (r.1 ≡ some remote_closed)
unfolding readloop
readloop-frames [] close after h c = ground arith
readloop-frames (f ∷ before) close after h c =
    let (m, p, e) = readloop-frames before close after h.1 c in ground (arith, m, p, e)

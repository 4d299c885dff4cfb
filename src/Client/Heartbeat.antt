-- ===== src/Client/Heartbeat.antt =====
-- The options of a client, its pings and heartbeatLoop, in wxf/tcp/client.go. A tick of the timer
-- comes with what SetWriteDeadline returns at it.
use wxf_im.Prelude.{
  ℕ, zero, suc, ◌+◌, ◌-◌, ◌*◌, ◌^◌, ◌<◌, ◌≡◌, refl, sym, ap, ◌∙◌, some, List, [], ◌∷◌, ◌++◌, arith,
  ◌==◌, if◌then◌else◌, length, take, Bytes, Outcome, ok, err, panicked, write_failed,
}
use mathlib.Core.List.{append_assoc}
use wxf_im.Wire.Writer.{Writer, Written, write, write_fits, write_short}
use wxf_im.Wire.Endian.{be_bytes}
use wxf_im.Conn.{Frame, op_ping}
use wxf_im.Conn.Tcp.{write_frame}
use wxf_im.Conn.Tcp.RoundTrip.{frame_bytes, write_frame_lem}

-- ClientOptions; a duration is a number of nanoseconds.
pub record ClientOptions : Type 0 where
  pub heartbeat : ℕ
  pub read_wait : ℕ
  pub write_wait : ℕ

abbrev second : ℕ
second = 10 ^ 9

abbrev pub default_read_wait : ℕ
default_read_wait = 180 * second

abbrev pub default_write_wait : ℕ
default_write_wait = 10 * second

abbrev pub or_default : ℕ → ℕ → ℕ
or_default n other = if n == 0 then other else n

-- The options that NewClient and NewClientWithProps of both packages store.
abbrev pub with_defaults : ClientOptions → ClientOptions
with_defaults opts = record opts {
  read_wait = or_default opts.read_wait default_read_wait;
  write_wait = or_default opts.write_wait default_write_wait;
}

-- ping()
unfoldable pub ping : Outcome (Unit {0}) → Writer → Written
ping (ok u) w = write_frame op_ping [] w
ping (err e) w = (err e, w)
ping panicked w = (panicked, w)

-- What follows a ping, given the rest of the loop.
abbrev pub goes_on : Written → (Writer → Outcome (Unit {0}) × Writer) → Outcome (Unit {0}) × Writer
goes_on (ok u, w) rest = rest w
goes_on (err e, w) rest = (err e, w)
goes_on (panicked, w) rest = (panicked, w)

-- heartbeatLoop() over the ticks so far: `ok` means that it waits for the next one.
unfoldable pub heartbeat_loop : List (Outcome (Unit {0})) → Writer → Outcome (Unit {0}) × Writer
heartbeat_loop [] w = (ok tt, w)
heartbeat_loop (d ∷ ds) w = goes_on (ping d w) (heartbeat_loop ds)

abbrev pub ping_frame : Frame
ping_frame = record { op_code = op_ping; payload = [] }

abbrev pub pings : ℕ → Bytes
pings zero = []
pings (suc n) = frame_bytes ping_frame ++ pings n

-- `n` ticks at which SetWriteDeadline succeeds.
abbrev pub ticks : ℕ → List (Outcome (Unit {0}))
ticks zero = []
ticks (suc n) = ok tt ∷ ticks n

ping_lem : (w : Writer) → ping (ok tt) w ≡ write (frame_bytes ping_frame) w
unfolding ping
ping_lem w = write_frame_lem ping_frame w (omega arith)

length_ping : length (frame_bytes ping_frame) ≡ 5
unfolding be_bytes
length_ping = refl

-- On a connection that takes no more than some bytes, the loop ends with the error of the write:
-- it has written a whole ping for each five bytes, and the rest holds the beginning of one more.
pub heartbeat_loop-ends :
    (n extra left : ℕ) (w : Writer)
    → w.room ≡ some (5 * n + left)
    → left < 5
    → heartbeat_loop (ticks (n + suc extra)) w ≡ (
      err write_failed,
      record { out = w.out ++ (pings n ++ take left (frame_bytes ping_frame)); room = some 0 },
    )
unfolding heartbeat_loop
heartbeat_loop-ends zero extra left w room small =
    let count : 0 + suc extra ≡ suc extra = omega arith in
    let k : 5 * 0 + left ≡ left = omega arith in
    let cut =
      ping_lem w
      ∙ write_short (frame_bytes ping_frame) w left (room ∙ ap some k)
          (omega (arith, length_ping)) in
    rw (count, heartbeat_loop, cut) refl
heartbeat_loop-ends (suc n) extra left w room small =
    let count : suc n + suc extra ≡ suc (n + suc extra) = omega arith in
    let k : 5 * suc n + left - length (frame_bytes ping_frame) ≡ 5 * n + left =
      omega (arith, length_ping) in
    let whole =
      ping_lem w
      ∙ write_fits (frame_bytes ping_frame) w (5 * suc n + left) room
          (omega (arith, length_ping)) in
    let rest = heartbeat_loop-ends n extra left _ (ap some k) small in
    let cut = take left (frame_bytes ping_frame) in
    let joined =
      append_assoc w.out (frame_bytes ping_frame) (pings n ++ cut)
      ∙ ap (◌++◌ w.out) (sym (append_assoc (frame_bytes ping_frame) (pings n) cut)) in
    let stopped : Bytes → Outcome (Unit {0}) × Writer =
      λ out. (err write_failed, record { out = out; room = some 0 }) in
    rw (count, heartbeat_loop, whole) (rest ∙ ap stopped joined)

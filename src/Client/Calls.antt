-- ===== src/Client/Calls.antt =====
-- Sequences of calls of a client of wxf/tcp/client.go.
use wxf_im.Prelude.{
  ℕ, ◌%◌, ◌^◌, ◌≡◌, refl, ◌≢◌, ◌⊎◌, inl, inr, Bool, true, false, Option, none, some, List, [], ◌∷◌,
  arith, ap, if◌then◌else◌, ◌==◌, Bool-cases, Option-cases, length, All, Bytes, Outcome, ok, err,
  panicked,
}
use wxf_im.Wire.Writer.{Writer, write, write-ne-panicked, and_then-ne-panicked}
use wxf_im.Wire.Endian.{be_bytes, write_uint8, write_uint32, write_bytes}
use wxf_im.Conn.{Frame, op_binary, op_close}
use wxf_im.Conn.Tcp.{write_frame}
use wxf_im.Client.{
  Client, new_client, set_dialer, dialled, dial_and_go_on, connect, after_write, send, read, shut,
  hang_up, tcp_close,
}

-- A call, with what the network answers during it.
pub data Call : Type 0 where
  connects : Bool → Outcome (Option Writer) → Call
  sends : Outcome (Unit {0}) → Bytes → Call
  reads : Outcome Frame → Call
  closes : Call
  sets_dialer : Call

-- Whether a call returns nil, an error, or panics.
abbrev pub status {ℓ} : {A : Type ℓ} → Outcome A → Outcome (Unit {0})
status (ok a) = ok tt
status (err e) = err e
status panicked = panicked

unfoldable pub call : Call → Client → Outcome (Unit {0}) × Client
call (connects parses dial) c = connect parses dial c
call (sends deadline bytes) c = send deadline bytes c
call (reads frame) c = (status (read frame c), c)
call closes c = (ok tt, tcp_close c)
call sets_dialer c = (ok tt, set_dialer c)

unfoldable pub results : List Call → Client → List (Outcome (Unit {0}))
results [] c = []
results (k ∷ ks) c = let (r, c') = call k c in r ∷ results ks c'

-- The network does not panic, and a dialer that returns no error returns a connection.
abbrev pub IsFair : Call → Type 0
IsFair (connects parses dial) = (dial ≢ panicked) × (dial ≢ ok none)
IsFair (sends deadline bytes) = deadline ≢ panicked
IsFair (reads frame) = frame ≢ panicked
IsFair closes = Unit {0}
IsFair sets_dialer = Unit {0}

-- A client that is not in its first state has a connection.
abbrev pub HasConn : Client → Type 0
HasConn c = (c.state ≡ 0) ⊎ ((w : Writer) × (c.conn ≡ some w))

-- The dialer is set, and so is the connection if the client is not in its first state.
abbrev pub IsUsable : Client → Type 0
IsUsable c = (c.has_dialer ≡ true) × HasConn c

-- A call that does not panic and leaves the client usable.
abbrev pub IsHarmless : Outcome (Unit {0}) × Client → Type 0
IsHarmless (r, c) = (r ≢ panicked) × IsUsable c

dialled-IsHarmless :
    (dial : Outcome (Option Writer)) (c : Client)
    → dial ≢ panicked
    → dial ≢ ok none
    → c.has_dialer ≡ true
    → c.state ≡ 1
    → IsHarmless (dialled dial c)
unfolding dialled
dialled-IsHarmless (ok none) c h n d e = absurd (n refl)
dialled-IsHarmless (ok (some w)) c h n d e = (λ q. cc, (d, inr (w, refl)))
dialled-IsHarmless (err reason) c h n d e = (λ q. cc, (d, inl (ground arith)))
dialled-IsHarmless panicked c h n d e = absurd (h refl)

dial_and_go_on-IsHarmless :
    (dial : Outcome (Option Writer)) (c : Client)
    → dial ≢ panicked
    → dial ≢ ok none
    → c.has_dialer ≡ true
    → c.state ≡ 1
    → IsHarmless (dial_and_go_on dial c)
unfolding dial_and_go_on
dial_and_go_on-IsHarmless dial c h n d e =
    let goes : dial_and_go_on dial c ≡ dialled dial c =
      ap (λ b. if b then dialled dial c else (panicked, c)) d in
    rw goes (dialled-IsHarmless dial c h n d e)

connect-IsHarmless :
    (parses : Bool) (dial : Outcome (Option Writer)) (c : Client)
    → dial ≢ panicked
    → dial ≢ ok none
    → IsUsable c
    → IsHarmless (connect parses dial c)
unfolding connect
connect-IsHarmless false dial c h n has = (λ q. cc, has)
connect-IsHarmless true dial c h n has = elim (Bool-cases (c.state == 0)) [
  | inl idle ↦ rw idle (dial_and_go_on-IsHarmless dial (record c { state = 1 }) h n (has.0) refl)
  | inr busy ↦ rw busy (λ q. cc, has)
]

write_frame-ne-panicked : (code : ℕ) (p : Bytes) (w : Writer) → (write_frame code p w).0 ≢ panicked
unfolding write_frame write_uint8 write_bytes write_uint32
write_frame-ne-panicked code p w =
    and_then-ne-panicked (write_uint8 code w) (write_bytes p)
      (write-ne-panicked (code % 2 ^ 8 ∷ []) w)
      (λ v.
        and_then-ne-panicked (write_uint32 (length p % 2 ^ 32) v) (write p)
          (write-ne-panicked (be_bytes 4 (length p % 2 ^ 32)) v) (write-ne-panicked p))

after_deadline :
    (deadline : Outcome (Unit {0})) (bytes : Bytes) (c : Client) (w : Writer)
    → c.has_dialer ≡ true
    → c.conn ≡ some w
    → (c.state == 0) ≡ false
    → deadline ≢ panicked
    → IsHarmless (send deadline bytes c)
unfolding send after_write
after_deadline (ok u) bytes c w d e busy h =
    rw (busy, e, send)
      (
        write_frame-ne-panicked op_binary bytes w,
        (d, inr ((write_frame op_binary bytes w).1, refl)),
      )
after_deadline (err reason) bytes c w d e busy h = simp (busy, e) (λ q. cc, (d, inr (w, refl)))
after_deadline panicked bytes c w d e busy h = absurd (h refl)

send-IsHarmless :
    (deadline : Outcome (Unit {0})) (bytes : Bytes) (c : Client)
    → deadline ≢ panicked
    → IsUsable c
    → IsHarmless (send deadline bytes c)
unfolding send
send-IsHarmless deadline bytes c h has = elim (Bool-cases (c.state == 0)) [
  | inl idle ↦ rw idle (λ q. cc, has)
  | inr busy ↦ elim (has.1) [
    | inl idle ↦ absurd (ground arith)
    | inr (w, e) ↦ after_deadline deadline bytes c w (has.0) e busy h
  ]
]

read-ne-panicked :
    (frame : Outcome Frame) (c : Client) → frame ≢ panicked → status (read frame c) ≢ panicked
unfolding read
read-ne-panicked (ok f) c h = elim (Option-cases c.conn) [
  | inl e ↦ rw (e, read) (λ q. cc)
  | inr (w, e) ↦ elim (Bool-cases (f.op_code == op_close)) [
    | inl t ↦ rw (e, read, t) (λ q. cc)
    | inr t ↦ rw (e, read, t) (λ q. cc)
  ]
]
read-ne-panicked (err reason) c h = elim (Option-cases c.conn) [
  | inl e ↦ rw (e, read) (λ q. cc)
  | inr (w, e) ↦ rw (e, read) (λ q. cc)
]
read-ne-panicked panicked c h = absurd (h refl)

tcp_close-IsUsable : (c : Client) → IsUsable c → IsUsable (tcp_close c)
unfolding tcp_close hang_up
tcp_close-IsUsable c has = elim (Bool-cases c.once) [
  | inl t ↦ rw t has
  | inr f ↦ elim (Option-cases c.conn) [
    | inl e ↦ rw (f, e, tcp_close) has
    | inr (w, e) ↦ rw (f, e, tcp_close) (has.0, inr (shut (write_frame op_close [] w).1, refl))
  ]
]

call-IsHarmless : (k : Call) (c : Client) → IsFair k → IsUsable c → IsHarmless (call k c)
unfolding call
call-IsHarmless (connects parses dial) c fair has =
    connect-IsHarmless parses dial c fair.0 fair.1 has
call-IsHarmless (sends deadline bytes) c fair has = send-IsHarmless deadline bytes c fair has
call-IsHarmless (reads frame) c fair has = (read-ne-panicked frame c fair, has)
call-IsHarmless closes c fair has = (λ q. cc, tcp_close-IsUsable c has)
call-IsHarmless sets_dialer c fair has = (λ q. cc, (refl, has.1))

-- No sequence of Connect, Send, Read, Close and SetDialer on a client that has a dialer, and a
-- connection unless it is in its first state, panics, as a new client whose dialer was set: as long
-- as dialers that return no error return a connection, and the dialers, SetWriteDeadline and the
-- ReadFrame of the connection do not panic themselves.
pub results-ne-panicked :
    (ks : List Call) (c : Client)
    → All IsFair ks
    → IsUsable c
    → All (λ r. r ≢ panicked) (results ks c)
unfolding results
results-ne-panicked [] c fair has = tt
results-ne-panicked (k ∷ ks) c fair has =
    let (fine, has') = call-IsHarmless k c fair.0 has in
    (fine, results-ne-panicked ks (call k c).1 fair.1 has')

-- A new client without a dialer: Connect panics at every address that parses.
pub new_client-panics :
    (dial : Outcome (Option Writer)) → (connect true dial new_client).0 ≡ panicked
unfolding connect dial_and_go_on
new_client-panics dial = refl

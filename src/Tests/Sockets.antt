-- ===== src/Tests/Sockets.antt =====
-- A package of WebSocket frames: it shows that what wxf/websocket relies on can be met.
use wxf_im.Prelude.{ℕ, ◌≡◌, refl, true, false, [], ◌∷◌, map, arith, ◌==◌, if◌then◌else◌, Bytes}
use wxf_im.Conn.Websocket.{Ws, IsDocumented}

-- A masking that swaps two bytes, for every mask.
abbrev pub swapped : ℕ → ℕ
swapped b = if b == 0 then 1 else if b == 1 then 0 else b

swapped_twice : (p : Bytes) → map swapped (map swapped p) ≡ p
swapped_twice [] = refl
swapped_twice (b ∷ p) = let rest = swapped_twice p in ground (arith, rest)

abbrev pub ws : Ws
ws = record {
  cipher = λ p mask. map swapped p;
  new_frame = λ code p. record { op_code = code; masked = false; mask = []; payload = p };
  client_message =
      λ mask code p. record { op_code = code; masked = true; mask = mask; payload = map swapped p };
}

pub ws-IsDocumented : IsDocumented ws
ws-IsDocumented = record {
  twice = λ p mask. swapped_twice p;
  plain = λ code p. (refl, refl, refl);
  hidden = λ mask code p. refl;
}

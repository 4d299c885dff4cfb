-- ===== src/Wire/Pkt/Meta/Number.antt =====
-- strconv.Atoi, as FindMeta calls it: with the error dropped.
use wxf_im.Prelude.{
  ℕ, ◌+◌, ◌-◌, ◌*◌, ◌^◌, Bool, true, false, ◌||◌, [], ◌∷◌, ltb, leb, ◌==◌, if◌then◌else◌, Bytes,
}

-- An int is a sign and a magnitude.
pub record Parsed : Type 0 where
  pub negative : Bool
  pub magnitude : ℕ

-- strconv.ParseUint in base 10.
pub data Digits : Type 0 where
  number : ℕ → Digits
  range_error : Digits
  syntax_error : Digits

unfoldable pub parse_uint : ℕ → Bytes → Digits
parse_uint acc [] = number acc
parse_uint acc (c ∷ cs) =
    let rest = parse_uint (acc * 10 + (c - b'0')) cs in
    if ltb c b'0' || ltb b'9' c
    then syntax_error
    else if leb (2 ^ 64) (acc * 10 + (c - b'0'))
    then range_error
    else rest

-- The value that Atoi returns beside its error: 0 on a syntax error, the nearest int otherwise.
in_range : Bool → Digits → Parsed
in_range neg syntax_error = record { negative = false; magnitude = 0 }
in_range neg range_error = record { negative = neg; magnitude = if neg then 2 ^ 63 else 2 ^ 63 - 1 }
in_range true (number n) = record {
  negative = ltb 0 n;
  magnitude = if leb n (2 ^ 63) then n else 2 ^ 63;
}
in_range false (number n) = record {
  negative = false;
  magnitude = if ltb n (2 ^ 63) then n else 2 ^ 63 - 1;
}

unsigned : Bytes → Digits
unfolding parse_uint
unsigned [] = syntax_error
unsigned (c ∷ cs) = parse_uint 0 (c ∷ cs)

unfoldable pub atoi : Bytes → Parsed
unfolding in_range unsigned
atoi [] = record { negative = false; magnitude = 0 }
atoi (c ∷ cs) =
    if c == b'-'
    then in_range true (unsigned cs)
    else if c == b'+'
    then in_range false (unsigned cs)
    else in_range false (unsigned (c ∷ cs))

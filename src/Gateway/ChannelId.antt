-- ===== src/Gateway/ChannelId.antt =====
-- generateChannelID and getIP of wxf/services/gateway/serv/handler.go.
use wxf_im.Prelude.{
  ℕ, ◌≡◌, sym, ◌∙◌, Bool, true, false, ◌&&◌, [], ◌∷◌, ◌++◌, arith, leb, ◌==◌, if◌then◌else◌, Bytes,
  Lacks, decimal, decimal-injective, decimal-Lacks,
}
use mathlib.Core.List.{append-nil, append_assoc}
use wxf_im.Wire.Seq.{next}

-- The text of the id with the sequence number `n`.
abbrev pub channel_id : Bytes → Bytes → ℕ → Bytes
channel_id service_id account n = (service_id ++ b'_' ∷ account) ++ b'_' ∷ decimal n

-- generateChannelID(serviceID, account), with the counter before and after.
unfoldable pub generate_channel_id : Bytes → Bytes → ℕ → Bytes × ℕ
generate_channel_id service_id account seq =
    let (n, seq') = next seq in (channel_id service_id account n, seq')

is_digit : ℕ → Bool
is_digit c = leb b'0' c && leb c b'9'

all_digits : Bytes → Bool
unfolding is_digit
all_digits [] = true
all_digits (c ∷ cs) = is_digit c && all_digits cs

-- `[0-9]+$`
some_digits : Bytes → Bool
unfolding all_digits
some_digits [] = false
some_digits (c ∷ cs) = all_digits (c ∷ cs)

-- ipExp.ReplaceAllString(remoteAddr, ""): a colon and the digits up to the end go.
unfoldable pub get_ip : Bytes → Bytes
unfolding some_digits
get_ip [] = []
get_ip (c ∷ cs) = let rest = get_ip cs in if c == b':' && some_digits cs then [] else c ∷ rest

-- What follows the last separator.
last_part : ℕ → Bytes → Bytes → Bytes
last_part sep seen [] = seen
last_part sep seen (b ∷ bs) = last_part sep (if b == sep then [] else seen ++ b ∷ []) bs

last_part-Lacks : (sep : ℕ) (seen bs : Bytes) → Lacks sep bs → last_part sep seen bs ≡ seen ++ bs
unfolding last_part
last_part-Lacks sep seen [] h = sym (append-nil seen)
last_part-Lacks sep seen (b ∷ bs) h =
    let other : (b == sep) ≡ false = ground arith in
    rw other (last_part-Lacks sep (seen ++ b ∷ []) bs h.1 ∙ append_assoc seen (b ∷ []) bs)

last_part-append :
    (sep : ℕ) (seen xs ys : Bytes) → Lacks sep ys → last_part sep seen (xs ++ sep ∷ ys) ≡ ys
unfolding last_part
last_part-append sep seen [] ys h =
    let same : (sep == sep) ≡ true = ground arith in
    rw (same, last_part) (last_part-Lacks sep [] ys h)
last_part-append sep seen (x ∷ xs) ys h =
    last_part-append sep (if x == sep then [] else seen ++ x ∷ []) xs ys h

-- Channel ids made from different sequence numbers differ, whatever the services and the accounts.
pub channel_id-injective :
    (service service' account account' : Bytes) (n m : ℕ)
    → channel_id service account n ≡ channel_id service' account' m
    → n ≡ m
channel_id-injective service service' account account' n m e = decimal-injective n m (
    cc (
      last_part-append b'_' [] (service ++ b'_' ∷ account) (decimal n)
          (decimal-Lacks b'_' n (omega arith)),
      last_part-append b'_' [] (service' ++ b'_' ∷ account') (decimal m)
          (decimal-Lacks b'_' m (omega arith)),
    ))

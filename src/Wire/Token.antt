-- ===== src/Wire/Token.antt =====
-- wxf/wire/token/jwt.go. The JWT library is a parameter: what it decodes from a text whose signature
-- is right under the secret. Its ParseWithClaims then calls Valid on the claims.
use wxf_im.Prelude.{
  ◌≡◌, some, arith, ℕ, Option, ltb, if◌then◌else◌, Bytes, lit, Outcome, ok, err, ◌>>=◌, ◌>>◌,
  or_fail, expired_token, external,
}

-- The claims, with the expiry in seconds.
pub record Token : Type 0 where
  pub account : Bytes
  pub app : Bytes
  pub exp : ℕ

-- The signed claims of a text under a secret.
abbrev pub Decoder : Type 0
Decoder = Bytes → Bytes → Option Token

abbrev pub default_secret : Bytes
default_secret = lit "jwt-1sNzdiSgnNuxyq2g7xml2JvLArU"

-- (t *Token) Valid() at the time `now`
unfoldable pub valid : ℕ → Token → Outcome (Unit {0})
valid now t = if ltb t.exp now then err expired_token else ok tt

-- Parse(secret, tk) at the time `now`
unfoldable pub parse : Decoder → ℕ → Bytes → Bytes → Outcome Token
parse decoder now secret tk = do t ← or_fail (decoder secret tk) (external 1); valid now t; ok t

-- What the library signs: the text for claims under a secret.
abbrev pub Encoder : Type 0
Encoder = Bytes → Token → Outcome Bytes

-- Generate(secret, token)
unfoldable pub generate : Encoder → Bytes → Token → Outcome Bytes
generate encoder secret token = encoder secret token

-- A text that Generate returned, and that the library decodes under the same secret, is parsed to its
-- token until that expires, and refused as expired afterwards.
pub parse-generate :
    (encoder : Encoder) (decoder : Decoder) (secret text : Bytes) (t : Token) (now : ℕ)
    → generate encoder secret t ≡ ok text
    → (encoder secret t ≡ ok text → decoder secret text ≡ some t)
    → parse decoder now secret text ≡ (if ltb t.exp now then err expired_token else ok t)
unfolding generate parse valid
parse-generate encoder decoder secret text t now made restores = rw (restores made) (ground arith)

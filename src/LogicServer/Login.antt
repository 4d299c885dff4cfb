-- ===== src/LogicServer/Login.antt =====
-- LoginHandler of wxf/services/server/handler/login_handler.go, over what its wxf.Context answers.
use wxf_im.Prelude.{
  ℕ, suc, ◌≡◌, refl, sym, ap, ◌∙◌, inl, inr, Bool, true, false, not, Option, none, some, List, [],
  ◌∷◌, ◌++◌, arith, if◌then◌else◌, Bool-cases, Bytes, Error, Outcome, ok, err, panicked, ◌>>=◌,
}
use wxf_im.Wire.Pkt.Message.{Session, LoginResp, KickoutNotify, Status}
use wxf_im.Router.Dispatch.{Location}
use wxf_im.LogicServer.Handler.{is_session_nil}

-- What DoSysLogin asks of its context: ReadBody, GetLocation and Add, the latter two with the error
-- that they return.
pub record LoginContext : Type 0 where
  pub read_body : Outcome Session
  pub get_location : Bytes → Bytes → Option Location × Option Error
  pub add : Session → Option Error

-- The calls that tell others something, or change the session storage. Their own results are
-- dropped.
pub data Call : Type 0 where
  resp_with_error : Status → Error → Call
  dispatched : KickoutNotify → Location → Call
  added : Session → Call
  deleted : Bytes → Bytes → Call
  resp : Status × Option LoginResp → Call

abbrev pub success_of : Session → Status × Option LoginResp
success_of s = (Status.success, some (record { channel_id = s.channel_id; account = [] }))

-- if old != nil
abbrev pub kicks : Option Location → List Call
kicks none = []
kicks (some old) = dispatched (record { channel_id = old.channel_id }) old ∷ []

unfoldable pub after_add : Session → Option Error → List Call
after_add s none = added s ∷ resp (success_of s) ∷ []
after_add s (some e) = added s ∷ resp_with_error Status.system_exception e ∷ []

-- err != nil && err != wxf.ErrSessionNil
abbrev pub is_failure : Option Error → Bool
is_failure none = false
is_failure (some e) = not (is_session_nil e)

-- What the error of GetLocation is where `is_failure` holds.
abbrev pub error_of : Option Error → Error
error_of none = Error.session_nil
error_of (some e) = e

unfoldable pub after_location : LoginContext → Session → Option Location × Option Error → List Call
unfolding after_add
after_location ctx s (old, e) =
    if is_failure e
    then resp_with_error Status.system_exception (error_of e) ∷ []
    else kicks old ++ after_add s (ctx.add s)

unfoldable pub after_body : LoginContext → Outcome Session → Outcome (List Call)
unfolding after_location
after_body ctx (ok s) = ok (after_location ctx s (ctx.get_location s.account []))
after_body ctx (err e) = ok (resp_with_error Status.invalid_command e ∷ [])
after_body ctx panicked = panicked

-- (h *LoginHandler) DoSysLogin(ctx)
unfoldable pub do_sys_login : LoginContext → Outcome (List Call)
unfolding after_body
do_sys_login ctx = after_body ctx ctx.read_body

-- After ctx.Session(), given what Delete returns.
abbrev pub after_session : (Bytes → Bytes → Option Error) → Session → List Call
after_session delete session = elim (delete session.account session.channel_id) [
  | none ↦ deleted session.account session.channel_id ∷ resp (Status.success, none) ∷ []
  | some e ↦
      deleted session.account session.channel_id ∷ resp_with_error Status.system_exception e ∷ []
]

-- (h *LoginHandler) DoSysLogout(ctx), with what Session and Delete of its context return: the log
-- line asks for the session first.
unfoldable pub do_sys_logout :
    Outcome Session → (Bytes → Bytes → Option Error) → Outcome (List Call)
do_sys_logout session delete = do s ← session; ok (after_session delete s)

-- How many of the calls answer the sender.
abbrev pub answers : List Call → ℕ
answers [] = 0
answers (resp_with_error s e ∷ cs) = suc (answers cs)
answers (resp r ∷ cs) = suc (answers cs)
answers (dispatched k l ∷ cs) = answers cs
answers (added s ∷ cs) = answers cs
answers (deleted a c ∷ cs) = answers cs

abbrev pub succeeds : List Call → Bool
succeeds [] = false
succeeds (resp_with_error s e ∷ cs) = succeeds cs
succeeds (resp r ∷ cs) = true
succeeds (dispatched k l ∷ cs) = succeeds cs
succeeds (added s ∷ cs) = succeeds cs
succeeds (deleted a c ∷ cs) = succeeds cs

answers-kicks : (old : Option Location) (cs : List Call) → answers (kicks old ++ cs) ≡ answers cs
answers-kicks none cs = refl
answers-kicks (some old) cs = refl

succeeds-kicks : (old : Option Location) (cs : List Call) → succeeds (kicks old ++ cs) ≡ succeeds cs
succeeds-kicks none cs = refl
succeeds-kicks (some old) cs = refl

answers-after_add : (s : Session) (e : Option Error) → answers (after_add s e) ≡ 1
unfolding after_add
answers-after_add s none = refl
answers-after_add s (some e) = refl

answers-after_location :
    (ctx : LoginContext) (s : Session) (found : Option Location × Option Error)
    → answers (after_location ctx s found) ≡ 1
unfolding after_location
answers-after_location ctx s (old, e) = elim (Bool-cases (is_failure e)) [
  | inl t ↦ rw t refl
  | inr f ↦ rw f (answers-kicks old (after_add s (ctx.add s)) ∙ answers-after_add s (ctx.add s))
]

answers-after_body :
    (ctx : LoginContext) (b : Outcome Session) (cs : List Call)
    → after_body ctx b ≡ ok cs
    → answers cs ≡ 1
unfolding after_body
answers-after_body ctx (ok s) cs h =
    let same : after_location ctx s (ctx.get_location s.account []) ≡ cs = ground arith in
    ap answers (sym same) ∙ answers-after_location ctx s (ctx.get_location s.account [])
answers-after_body ctx (err e) cs h =
    let same : resp_with_error Status.invalid_command e ∷ [] ≡ cs = ground arith in
    ap answers (sym same)
answers-after_body ctx panicked cs h = cc

-- On every path that does not panic, DoSysLogin answers its sender exactly once.
pub login_answers-once :
    (ctx : LoginContext) (cs : List Call) → do_sys_login ctx ≡ ok cs → answers cs ≡ 1
unfolding do_sys_login
login_answers-once ctx cs h = answers-after_body ctx ctx.read_body cs h

-- A login that is answered with success.
pub record IsLoggedIn (ctx : LoginContext) (cs : List Call) : Type 0 where
  pub session : Session
  pub has_body : ctx.read_body ≡ ok session
  pub located : is_failure (ctx.get_location session.account []).1 ≡ false
  pub stored : ctx.add session ≡ none
  pub whole :
      cs
      ≡ kicks (ctx.get_location session.account []).0
        ++ (added session ∷ resp (success_of session) ∷ [])

after_add-succeeds :
    (s : Session) (e : Option Error)
    → succeeds (after_add s e) ≡ true
    → (e ≡ none) × (after_add s e ≡ added s ∷ resp (success_of s) ∷ [])
unfolding after_add
after_add-succeeds s none h = (refl, refl)
after_add-succeeds s (some e) h = cc

after_location-succeeds :
    (ctx : LoginContext) (s : Session) (old : Option Location) (e : Option Error)
    → succeeds (after_location ctx s (old, e)) ≡ true
    → (is_failure e ≡ false)
      × (ctx.add s ≡ none)
      × (after_location ctx s (old, e) ≡ kicks old ++ (added s ∷ resp (success_of s) ∷ []))
unfolding after_location
after_location-succeeds ctx s old e h = elim (Bool-cases (is_failure e)) [
  | inl t ↦ absurd (cc (rw t at h))
  | inr f ↦
      let (stored, calls) =
        after_add-succeeds s (ctx.add s)
          (sym (succeeds-kicks old (after_add s (ctx.add s))) ∙ rw f at h) in
      (f, stored, rw f (ap (◌++◌ (kicks old)) calls))
]

-- Where DoSysLogin answers with success, the session of the body was stored, and if the account was
-- found elsewhere, the old place was told before that; nothing else was done.
pub login_success :
    (ctx : LoginContext) (cs : List Call)
    → do_sys_login ctx ≡ ok cs
    → succeeds cs ≡ true
    → IsLoggedIn ctx cs
unfolding do_sys_login after_body
login_success ctx cs h wins = by_body ctx.read_body refl h
  where
    by_body :
        (b : Outcome Session) → ctx.read_body ≡ b → after_body ctx b ≡ ok cs → IsLoggedIn ctx cs
    by_body (ok s) read e =
        let same : after_location ctx s (ctx.get_location s.account []) ≡ cs = ground arith in
        let found = ctx.get_location s.account [] in
        let (located, stored, calls) =
          after_location-succeeds ctx s found.0 found.1 (ap succeeds same ∙ wins) in
        record {
          session = s;
          has_body = read;
          located = located;
          stored = stored;
          whole = sym same ∙ calls;
        }
    by_body (err reason) read e =
        let same : resp_with_error Status.invalid_command reason ∷ [] ≡ cs = ground arith in
        absurd (cc (ap succeeds same ∙ wins))
    by_body panicked read e = cc

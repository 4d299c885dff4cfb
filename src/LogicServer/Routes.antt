-- ===== src/LogicServer/Routes.antt =====
-- The routes that RunServerStart of wxf/services/server/server.go registers, and the login handlers
-- on the context that Serve of wxf/router.go makes, whose Session and RespWithError are stubs.
use wxf_im.Prelude.{
  ◌≡◌, refl, sym, suc, length, ap, ◌∙◌, ◌⊎◌, inl, inr, Bool, true, false, Bool-cases, Option-cases,
  Error, Option, none, some, List, [], ◌∷◌, ◌++◌, arith, if◌then◌else◌, Bytes, bytes_eq,
  bytes_eq_iff, Outcome, ok, err, panicked,
}
use wxf_im.Prelude.Assoc
use wxf_im.Prelude.Assoc.{lookup-insert, insert}
use wxf_im.Wire.Pkt.Message.{Header, Status, Session, LoginResp, KickoutNotify, Codec}
use wxf_im.Router.{
  does, HandlerFunc, HandlersChain, started, did, Context, perform, next, tree_get, chain_or,
  tree_add, Router, new_router, handle, serve_context, serve,
}
use wxf_im.Router.Dispatch.{Location, resp, dispatch, group_recvs}
use wxf_im.Gateway.Handler.{command_login_sign_in, command_login_sign_out}
use wxf_im.LogicServer.Login.{
  LoginContext, Call, resp_with_error, dispatched, added, deleted, after_add, after_location,
  after_body, do_sys_login, kicks, is_failure,
}

-- The handlers: those of LoginHandler, and handleNoFound. In the chains of the router a handler is a name;
-- what it does on the context, where each of them panics, is `crashes` of LogicServer.Serving.
pub data Handler : Type 0 where
  logs_in logs_out finds_nothing : Handler

abbrev pub runs : Handler → HandlerFunc Handler
runs h = some (does h ∷ [])

-- r.Handle(...), r.Handle(...)
abbrev pub login_router : Router Handler
login_router =
    handle command_login_sign_out (runs logs_out ∷ [])
      (handle command_login_sign_in (runs logs_in ∷ []) new_router)

-- The handler of a command.
abbrev pub handler_of : Bytes → Handler
handler_of command =
    if bytes_eq command command_login_sign_in
    then logs_in
    else if bytes_eq command command_login_sign_out
    then logs_out
    else finds_nothing

login_router-nodes :
    login_router.nodes
    ≡ (command_login_sign_in, runs logs_in ∷ []) ∷ (command_login_sign_out, runs logs_out ∷ []) ∷ []
unfolding handle tree_add Assoc.lookup insert bytes_eq
login_router-nodes = refl

chain_of : Bytes → HandlersChain Handler
chain_of command = chain_or (runs finds_nothing ∷ []) (tree_get command login_router.nodes)

chain_of-handler_of : (command : Bytes) → chain_of command ≡ runs (handler_of command) ∷ []
unfolding chain_of Assoc.lookup
chain_of-handler_of command =
    ap (λ nodes. chain_or (runs finds_nothing ∷ []) (tree_get command nodes)) login_router-nodes
    ∙ ground (
      arith,
      bytes_eq_iff command_login_sign_in command,
      bytes_eq_iff command command_login_sign_in,
      bytes_eq_iff command_login_sign_out command,
      bytes_eq_iff command command_login_sign_out,
    )

-- With the routes of the logic service, Serve runs DoSysLogin for login.signin, DoSysLogout for
-- login.signout, and handleNoFound for every other command: one handler, once, whatever the context of
-- the pool was used for before.
pub serve-handler_of :
    (command : Bytes) (pooled : Context Handler)
    → serve (runs finds_nothing) true true command login_router pooled
      ≡ ok (started 0 ∷ did (handler_of command) ∷ [])
unfolding serve serve_context chain_of
serve-handler_of command pooled =
    ap
      (λ (chain : HandlersChain Handler).
        ok (next (suc (length chain)) (record { handlers = chain; index = 0; events = [] })).events)
      (chain_of-handler_of command)
    ∙ unfold next perform in refl

-- What a login has done when it panics: nothing to the session storage, or one Add of the session of
-- its body, whose account was found nowhere.
abbrev pub LeavesBehind : LoginContext → List Call → Type 0
LeavesBehind ctx done =
    (done ≡ [])
    ⊎ ((x : Session) × (ctx.read_body ≡ ok x)
        × ((ctx.get_location x.account []).0 ≡ none)
        × (done ≡ added x ∷ []))

module _ (resp_codec : Codec LoginResp) (kick_codec : Codec KickoutNotify)
    (pushed : Outcome (Unit {0})) (request : Header) where
  -- A call of a handler on the ContextImpl of Serve, by what it returns or whether it panics;
  -- RespWithError is a stub, and Resp and Dispatch ask for the session, whose method is one.
  unfoldable pub perform_call : Call → Outcome (Unit {0})
  perform_call (resp_with_error status e) = panicked
  perform_call (dispatched notify old) =
      (dispatch kick_codec pushed (λ group. group) request (some notify) (old ∷ [])).1
  perform_call (added x) = ok tt
  perform_call (deleted account channel) = ok tt
  perform_call (Call.resp (status, body)) = (resp resp_codec pushed request status body).1

  -- The calls of a handler up to the first that panics, and whether one does. The handlers drop the
  -- errors.
  unfoldable pub on_context : List Call → List Call × Bool
  on_context [] = ([], false)
  on_context (c ∷ cs) =
      let (later, crashed) = on_context cs in
      elim (perform_call c) [
        | ok u ↦ (c ∷ later, crashed)
        | err e ↦ (c ∷ later, crashed)
        | panicked ↦ ([], true)
      ]

  add_then_panics :
      (x : Session) (e : Option Error) → on_context (after_add x e) ≡ (added x ∷ [], true)
  unfolding on_context perform_call after_add resp
  add_then_panics x none = refl
  add_then_panics x (some e) = refl

  kick_panics : (old : Location) (cs : List Call) → on_context (kicks (some old) ++ cs) ≡ ([], true)
  unfolding on_context perform_call dispatch group_recvs
  kick_panics old cs = refl

  location_then_panics :
      (ctx : LoginContext) (x : Session) (old : Option Location) (e : Option Error)
      → (on_context (after_location ctx x (old, e)) ≡ ([], true))
        ⊎ ((old ≡ none) × (on_context (after_location ctx x (old, e)) ≡ (added x ∷ [], true)))
  unfolding after_location
  location_then_panics ctx x old e = elim (Bool-cases (is_failure e)) [
    | inl t ↦ inl (rw t (unfold on_context perform_call in refl))
    | inr f ↦ elim (Option-cases old) [
      | inl nowhere ↦ inr (nowhere, rw (f, nowhere) (add_then_panics x (ctx.add x)))
      | inr (place, found) ↦ inl (rw (f, found) (kick_panics place (after_add x (ctx.add x))))
    ]
  ]

  -- DoSysLogin on the context that Serve makes answers no login: whatever the session storage
  -- returns, one of its calls panics. By then it has at most called Add with the session of the body, for an
  -- account that was found nowhere.
  pub login_panics :
      (ctx : LoginContext) (cs : List Call)
      → do_sys_login ctx ≡ ok cs
      → ((on_context cs).1 ≡ true) × LeavesBehind ctx (on_context cs).0
  unfolding do_sys_login after_body
  login_panics ctx cs h = by_body ctx.read_body refl h
    where
      by_body :
          (b : Outcome Session)
          → ctx.read_body ≡ b
          → after_body ctx b ≡ ok cs
          → ((on_context cs).1 ≡ true) × LeavesBehind ctx (on_context cs).0
      by_body (ok x) read e =
          let found = ctx.get_location x.account [] in
          let same : after_location ctx x found ≡ cs = ground arith in
          elim (location_then_panics ctx x found.0 found.1) [
            | inl r ↦
                let r' = ap on_context (sym same) ∙ r in (ap (λ p. p.1) r', inl (ap (λ p. p.0) r'))
            | inr (nowhere, r) ↦
                let r' = ap on_context (sym same) ∙ r in
                (ap (λ p. p.1) r', inr (x, read, nowhere, ap (λ p. p.0) r'))
          ]
      by_body (err reason) read e =
          let same : resp_with_error Status.invalid_command reason ∷ [] ≡ cs = ground arith in
          let r : on_context cs ≡ ([], true) =
            ap on_context (sym same) ∙ unfold on_context perform_call in refl in
          (ap (λ p. p.1) r, inl (ap (λ p. p.0) r))
      by_body panicked read e = cc

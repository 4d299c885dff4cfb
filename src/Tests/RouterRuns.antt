-- ===== src/Tests/RouterRuns.antt =====
-- wxf/router.go and wxf/services/server/handler/login_handler.go
use wxf_im.Prelude.{
  session_nil, ℕ, ◌≡◌, refl, true, none, some, List, [], ◌∷◌, ◌++◌, lit, bytes_eq, ok,
}
use wxf_im.Prelude.Assoc
use wxf_im.Wire.Pkt.Message.{Session, empty_session}
use wxf_im.Router.{
  HandlerFunc, Event, Context, does, calls_next, new_router, use_handlers, handle, tree_add, Router,
  serve,
}
use wxf_im.LogicServer.Routes.{on_context, LeavesBehind, login_panics}
use wxf_im.Router.Chain.{starts, serve-starts}
use wxf_im.Router.Dispatch.{Location}
use wxf_im.LogicServer.Login.{
  LoginContext, Call, do_sys_login, kicks, IsLoggedIn, added, resp, success_of, login_success,
}
use wxf_im.Wire.Pkt.Message.{Codec, empty_header}

-- A middleware that calls Next between two actions, and a handler.
abbrev measure : HandlerFunc ℕ
measure = some (does 1 ∷ calls_next ∷ does 2 ∷ [])

abbrev talk : HandlerFunc ℕ
talk = some (does 3 ∷ [])

abbrev router : Router ℕ
router = handle (lit "chat.talk") (talk ∷ []) (use_handlers (measure ∷ []) new_router)

abbrev pooled : Context ℕ
pooled = record { handlers = measure ∷ []; index = 7; events = [] }

serve-starts_example :
    (es : List (Event ℕ)) × (serve talk true true (lit "chat.talk") router pooled ≡ ok es)
    × (starts es ≡ 0 ∷ 1 ∷ [])
unfolding handle use_handlers tree_add Assoc.lookup Assoc.insert bytes_eq
serve-starts_example =
    serve-starts talk (lit "chat.talk") router pooled
      ((does 1 ∷ calls_next ∷ does 2 ∷ [], refl), ((does 3 ∷ [], refl), tt))

abbrev ann : Session
ann = record empty_session { account = lit "ann"; channel_id = lit "c2" }

abbrev elsewhere : Location
elsewhere = record { channel_id = lit "c1"; gate_id = lit "gate1" }

abbrev ctx : LoginContext
ctx = record {
  read_body = ok ann;
  get_location = λ account device. (some elsewhere, none);
  add = λ session. none;
}

abbrev calls : List Call
calls = kicks (some elsewhere) ++ (added ann ∷ resp (success_of ann) ∷ [])

login_runs : do_sys_login ctx ≡ ok calls
unfolding do_sys_login
login_runs = refl

login_success_example : IsLoggedIn ctx calls
login_success_example = login_success ctx calls login_runs refl

-- A login of an account that is nowhere else.
abbrev fresh_login : LoginContext
fresh_login = record ctx { get_location = λ account device. (none, some session_nil) }

fresh_login_runs : do_sys_login fresh_login ≡ ok (added ann ∷ resp (success_of ann) ∷ [])
unfolding do_sys_login
fresh_login_runs = refl

abbrev silent : {M : Type 0} → Codec M
silent = record { marshal = λ m. none; unmarshal = λ bs. none }

login_panics_example :
    let r =
      on_context silent silent (ok tt) empty_header (added ann ∷ resp (success_of ann) ∷ []) in
    (r.1 ≡ true) × LeavesBehind fresh_login r.0
login_panics_example =
    login_panics silent silent (ok tt) empty_header fresh_login
      (added ann ∷ resp (success_of ann) ∷ []) fresh_login_runs

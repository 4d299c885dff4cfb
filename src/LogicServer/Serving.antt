-- ===== src/LogicServer/Serving.antt =====
-- Receive of wxf/services/server/serv/handler.go together with Serve of wxf/router.go: what becomes
-- of a message, for a handler of NewServeHandler and for the one that RunServerStart of
-- wxf/services/server/server.go makes.
use wxf_im.Prelude.{
  ◌≡◌, refl, arith, ap, ◌∙◌, inl, inr, Bool, true, false, ◌||◌, Bool-cases, Option, none, some,
  List, [], ◌∷◌, if◌then◌else◌, Bytes, lit, bytes_eq, Error, Outcome, ok, err, panicked, ◌>>◌,
  guard, cache_nil,
}
use wxf_im.Wire.Pkt.Message.{
  Header, Session, LoginResp, KickoutNotify, ErrorResp, Status, Codec, Restores, empty_session,
}
use wxf_im.Wire.Pkt.Meta.{MetaValue, int_value, float_value, string_value}
use wxf_im.Wire.Pkt.Logic.{LogicPkt, get_meta, add_string_meta, read_body}
use wxf_im.Wire.Pkt.Packet.{logic, marshal}
use wxf_im.Wire.Pkt.Packet.RoundTrip.{IsSendable}
use wxf_im.Container.{meta_dest_channels}
use wxf_im.Container.Push.{Pushed, as_string, push}
use wxf_im.Gateway.Handler.{command_login_sign_in}
use wxf_im.Router.{Router, Context, Event, started, did, serve}
use wxf_im.Router.Dispatch.{Location, stub_session, resp}
use wxf_im.LogicServer.Handler.{
  Reaction, ignored, replied, served, crashed, login_session, cached_session, resp_err, receive,
}
use wxf_im.LogicServer.Handler.Receiving.{receive-logic}
use wxf_im.LogicServer.Login.{
  LoginContext, Call, do_sys_login, after_body, after_location, do_sys_logout,
}
use wxf_im.LogicServer.Routes.{
  Handler, logs_in, logs_out, finds_nothing, runs, login_router, handler_of, serve-handler_of,
  perform_call, on_context, login_panics,
}

-- `none` is a nil pointer or interface; of the cache the handler itself calls Get only. A nil
-- *ServerDispatcher makes an interface that is not nil, so the dispatcher is left out.
pub record ServeHandler : Type 0 where
  pub r : Option (Router Handler)
  pub cache : Option (Bytes → Outcome Session)

-- NewServeHandler(r, cache)
abbrev pub new_serve_handler : Router Handler → (Bytes → Outcome Session) → ServeHandler
new_serve_handler r cache = record { r = some r; cache = some cache }

-- &serv.ServeHandler{}, as RunServerStart makes it
abbrev pub started_handler : ServeHandler
started_handler = record { r = none; cache = none }

-- h.cache.Get
abbrev pub cache_get : Option (Bytes → Outcome Session) → Bytes → Outcome Session
cache_get none channel = panicked
cache_get (some get) channel = get channel

abbrev pub is_set : {A : Type 0} → Option A → Bool
is_set none = false
is_set (some x) = true

-- h.r.Serve(packet, h.dispatcher, h.cache, session): on a nil router the call gets as far as its
-- pool.
unfoldable pub router_serve :
    ServeHandler → Bytes → Context Handler → Outcome (List (Event Handler))
router_serve h command pooled = elim h.r [
  | some r ↦ serve (runs finds_nothing) true (is_set h.cache) command r pooled
  | none ↦ do guard (is_set h.cache) cache_nil; panicked
]

-- What becomes of a message: nothing, an answer by Srv.Push, the handlers that run under a session,
-- an error of Serve, which is logged, or a panic.
pub data Received : Type 0 where
  dropped : Received
  answered : Pushed → Received
  handled : LogicPkt → Session → List (Event Handler) → Received
  refused : Error → Received
  panics : Received

-- What the handlers get from the session storage.
pub record Stored : Type 0 where
  pub get_location : Bytes → Bytes → Option Location × Option Error
  pub add : Session → Option Error
  pub delete : Bytes → Bytes → Option Error

-- Protobuf's codecs of the bodies, and what the calls of Push return.
pub record Answers : Type 0 where
  pub session : Codec Session
  pub login : Codec LoginResp
  pub kick : Codec KickoutNotify
  pub error : Codec ErrorResp
  pub pushed : Outcome (Unit {0})

abbrev pub is_panicked : {A : Type 0} → Outcome A → Bool
is_panicked (ok a) = false
is_panicked (err e) = false
is_panicked panicked = true

module _ (stored : Stored) (a : Answers) where
  -- The context of Serve, as DoSysLogin uses it.
  abbrev pub login_context : LogicPkt → LoginContext
  login_context p = record {
    read_body = read_body a.session p;
    get_location = stored.get_location;
    add = stored.add;
  }

  -- Whether a handler that makes these calls panics.
  abbrev pub ends : Header → Outcome (List Call) → Bool
  ends request (ok cs) = (on_context a.login a.kick a.pushed request cs).1
  ends request (err e) = false
  ends request panicked = true

  -- Whether a handler panics at a packet, on the context of Serve.
  unfoldable pub crashes : LogicPkt → Handler → Bool
  crashes p logs_in = ends p.header (do_sys_login (login_context p))
  crashes p logs_out = ends p.header (do_sys_logout stub_session stored.delete)
  crashes p finds_nothing =
      is_panicked
        (resp a.error a.pushed p.header Status.not_implemented
          (some (record { message = lit "NotImplemented" }))).1

  abbrev pub any_crashes : LogicPkt → List (Event Handler) → Bool
  any_crashes p [] = false
  any_crashes p (started i ∷ es) = any_crashes p es
  any_crashes p (did h ∷ es) = crashes p h || any_crashes p es

  abbrev pub after_serve : LogicPkt → Session → Outcome (List (Event Handler)) → Received
  after_serve packet session (ok es) =
      if any_crashes packet es then panics else handled packet session es
  after_serve packet session (err e) = refused e
  after_serve packet session panicked = panics

  abbrev pub after_reaction : ServeHandler → Context Handler → Reaction → Received
  after_reaction h pooled ignored = dropped
  after_reaction h pooled (replied pushed) = answered pushed
  after_reaction h pooled (served packet session) =
      after_serve packet session (router_serve h packet.command pooled)
  after_reaction h pooled crashed = panics

  -- Receive(agent, payload), with the context that the pool gives.
  unfoldable pub received : Codec Header → ServeHandler → Context Handler → Bytes → Bytes → Received
  received codec h pooled agent payload =
      after_reaction h pooled (receive codec (cache_get h.cache) agent payload)

  after_body-panics :
      (p : LogicPkt) (ctx : LoginContext) (b : Outcome Session)
      → ctx.read_body ≡ b
      → ends p.header (do_sys_login ctx) ≡ true
  unfolding do_sys_login after_body
  after_body-panics p ctx (ok x) read =
      let calls : do_sys_login ctx ≡ ok (after_location ctx x (ctx.get_location x.account [])) =
        rw read refl in
      rw calls
        (login_panics a.login a.kick a.pushed p.header ctx
          (after_location ctx x (ctx.get_location x.account [])) calls).0
  after_body-panics p ctx (err e) read = rw read (unfold on_context perform_call in refl)
  after_body-panics p ctx panicked read = rw read refl

  -- Every handler panics on the context of Serve.
  crashes-true : (p : LogicPkt) (h : Handler) → crashes p h ≡ true
  unfolding crashes do_sys_logout resp
  crashes-true p logs_in = after_body-panics p (login_context p) (login_context p).read_body refl
  crashes-true p logs_out = refl
  crashes-true p finds_nothing = refl

  module _ (codec : Codec Header) (pooled : Context Handler) (agent : Bytes) (p : LogicPkt) where
    -- Serve with the routes of the logic service.
    served-panics :
        (cache : Bytes → Outcome Session) (q : LogicPkt) (session : Session)
        → after_reaction (new_serve_handler login_router cache) pooled (served q session) ≡ panics
    unfolding router_serve
    served-panics cache q session =
        ap (after_serve q session) (serve-handler_of q.command pooled)
        ∙ rw (crashes-true q (handler_of q.command)) refl

    routed_login :
        (cache : Bytes → Outcome Session) (v : Option MetaValue)
        → get_meta p meta_dest_channels ≡ v
        → after_reaction (new_serve_handler login_router cache) pooled (login_session codec cache p)
          ≡ panics
    unfolding login_session
    routed_login cache none e =
        let reaction : login_session codec cache p ≡ crashed = rw (e, login_session) refl in
        ap (after_reaction (new_serve_handler login_router cache) pooled) reaction
    routed_login cache (some (string_value t)) e =
        let session : Session = record empty_session {
          channel_id = p.channel_id;
          gate_id = t;
          tags = lit "AutoGenerated" ∷ [];
        } in
        let reaction : login_session codec cache p ≡ served p session =
          rw (e, login_session) refl in
        ap (after_reaction (new_serve_handler login_router cache) pooled) reaction
        ∙ served-panics cache p session
    routed_login cache (some (int_value n)) e =
        let reaction : login_session codec cache p ≡ crashed = rw (e, login_session) refl in
        ap (after_reaction (new_serve_handler login_router cache) pooled) reaction
    routed_login cache (some (float_value t)) e =
        let reaction : login_session codec cache p ≡ crashed = rw (e, login_session) refl in
        ap (after_reaction (new_serve_handler login_router cache) pooled) reaction

    -- A handler of NewServeHandler with the routes of the logic service handles no sendable packet:
    -- it panics, since a login finds no gateway id or runs DoSysLogin, and every other packet whose
    -- channel has a session runs DoSysLogout or handleNoFound, which all end in a stub of the
    -- context; only where the cache answers with an error, which is no panic, does the packet go back
    -- as it came, with its channel as the destination. Protobuf restores what it marshals.
    pub routed_handler_panics :
        (cache : Bytes → Outcome Session)
        → Restores codec
        → IsSendable codec (logic p)
        → received codec
            (new_serve_handler login_router cache)
            pooled
            agent
            (marshal codec (logic p))
          ≡ (if bytes_eq p.command command_login_sign_in
              then panics
              else elim (cache p.channel_id) [
                | ok session ↦ panics
                | err e ↦
                    answered (push codec agent (add_string_meta p meta_dest_channels p.channel_id))
                | panicked ↦ panics
              ])
    unfolding received cached_session
    routed_handler_panics cache restores sendable =
        ap (after_reaction (new_serve_handler login_router cache) pooled)
          (receive-logic codec cache agent p restores sendable)
        ∙ elim (Bool-cases (bytes_eq p.command command_login_sign_in)) [
          | inl login ↦ rw login (routed_login cache (get_meta p meta_dest_channels) refl)
          | inr other ↦ rw other (by_cache (cache p.channel_id) refl)
        ]
      where
        by_cache :
            (o : Outcome Session)
            → cache p.channel_id ≡ o
            → after_reaction
                (new_serve_handler login_router cache)
                pooled
                (cached_session codec cache agent p)
              ≡ elim o [
                | ok session ↦ panics
                | err e ↦
                    answered (push codec agent (add_string_meta p meta_dest_channels p.channel_id))
                | panicked ↦ panics
              ]
        by_cache (ok session) e =
            let reaction : cached_session codec cache agent p ≡ served p session =
              rw (e, cached_session) refl in
            ap (after_reaction (new_serve_handler login_router cache) pooled) reaction
            ∙ served-panics cache p session
        by_cache (err reason) e =
            let reaction : cached_session codec cache agent p
                ≡ replied (push codec agent (add_string_meta p meta_dest_channels p.channel_id)) =
              rw (e, cached_session) (unfold resp_err in ground arith) in
            ap (after_reaction (new_serve_handler login_router cache) pooled) reaction
        by_cache panicked e =
            let reaction : cached_session codec cache agent p ≡ crashed =
              rw (e, cached_session) refl in
            ap (after_reaction (new_serve_handler login_router cache) pooled) reaction

    -- The handler that RunServerStart makes: no sendable packet runs any handler. One that is no login
    -- panics; so does a login, unless its dest.channels is a string, and then Serve refuses it for
    -- want of a cache. Protobuf restores what it marshals.
    pub started_handler_refuses :
        Restores codec
        → IsSendable codec (logic p)
        → received codec started_handler pooled agent (marshal codec (logic p)) ≡ (
            if bytes_eq p.command command_login_sign_in
            then elim (get_meta p meta_dest_channels) [
              | none ↦ panics
              | some v ↦ elim (as_string v) [
                | ok gateway ↦ refused cache_nil
                | err e ↦ panics
                | panicked ↦ panics
              ]
            ]
            else panics)
    unfolding received
    started_handler_refuses restores sendable =
        ap (after_reaction started_handler pooled)
          (receive-logic codec (cache_get none) agent p restores sendable)
        ∙ unfold login_session cached_session router_serve in ground arith

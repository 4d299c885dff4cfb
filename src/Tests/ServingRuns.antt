-- ===== src/Tests/ServingRuns.antt =====
-- Receive of wxf/services/server/serv/handler.go up to the handlers of its router.
use wxf_im.Prelude.{none, some, session_nil, Outcome, Bytes, ok, ◌≡◌, [], ◌∷◌, arith, lit, bytes_eq}
use wxf_im.Wire.Pkt.Message.{Header, Codec, Session, empty_header, empty_session, Header-discrete}
use wxf_im.Wire.Pkt.Logic.{LogicPkt}
use wxf_im.Wire.Pkt.Packet.{logic, marshal}
use wxf_im.Wire.Pkt.Packet.RoundTrip.{IsSendable}
use wxf_im.Gateway.Handler.{command_login_sign_out}
use wxf_im.Router.{Context, did}
use wxf_im.LogicServer.Routes.{Handler, logs_out, runs, login_router}
use wxf_im.LogicServer.Serving.{
  Stored, Answers, new_serve_handler, started_handler, received, panics, routed_handler_panics,
  started_handler_refuses,
}
use wxf_im.Tests.Codecs.{only, only-marshal, only-Restores}

abbrev leave : LogicPkt
leave = record {
  header = record empty_header { command = command_login_sign_out; channel_id = lit "c" };
  body = [];
}

abbrev leave_codec : Codec Header
leave_codec = only Header-discrete leave.header (5 ∷ [])

leave-IsSendable : IsSendable leave_codec (logic leave)
leave-IsSendable = (
  5 ∷ [],
  record {
    header = only-marshal Header-discrete leave.header (5 ∷ []);
    header_fits = omega arith;
    body_fits = omega arith;
  },
)

abbrev ann : Session
ann = record empty_session { account = lit "ann"; channel_id = lit "c" }

abbrev ann_everywhere : Bytes → Outcome Session
ann_everywhere channel = ok ann

abbrev used : Context Handler
used = record { handlers = runs logs_out ∷ []; index = 3; events = did logs_out ∷ [] }

abbrev silent : {M : Type 0} → Codec M
silent = record { marshal = λ m. none; unmarshal = λ bs. none }

abbrev answers : Answers
answers = record { session = silent; login = silent; kick = silent; error = silent; pushed = ok tt }

abbrev stored : Stored
stored = record {
  get_location = λ account device. (none, some session_nil);
  add = λ session. none;
  delete = λ account channel. none;
}

routed_handler_panics_example :
    received stored answers leave_codec
      (new_serve_handler login_router ann_everywhere)
      used
      (lit "gate1")
      (marshal leave_codec (logic leave))
    ≡ panics
unfolding bytes_eq
routed_handler_panics_example =
    routed_handler_panics stored answers leave_codec used (lit "gate1") leave ann_everywhere
      (only-Restores Header-discrete leave.header (5 ∷ [])) leave-IsSendable

started_handler_refuses_example :
    received stored answers leave_codec started_handler used
      (lit "gate1")
      (marshal leave_codec (logic leave))
    ≡ panics
unfolding bytes_eq
started_handler_refuses_example =
    started_handler_refuses stored answers leave_codec used (lit "gate1") leave
      (only-Restores Header-discrete leave.header (5 ∷ [])) leave-IsSendable

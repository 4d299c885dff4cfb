-- ===== src/Gateway/Handler/Accepting.antt =====
-- Whom Accept of wxf/services/gateway/serv/handler.go lets in.
use wxf_im.Prelude.{
  ℕ, suc, ◌+◌, ◌-◌, ◌≤◌, ◌<◌, ◌≡◌, refl, sym, ap, ◌∙◌, ◌≢◌, inl, inr, some, [], arith, Bytes,
  bytes_eq-cases, Outcome, ok, err, panicked,
}
use wxf_im.Wire.Seq.{initial, max_uint32, next, after_calls}
use wxf_im.Wire.Seq.Values.{after_calls_distinct, after_calls-InRange, next-InRange}
use wxf_im.Wire.Token.{Token, default_secret, valid, parse}
use wxf_im.Wire.Pkt.Message.{LoginReq}
use wxf_im.Wire.Pkt.Logic
use wxf_im.Wire.Pkt.Logic.{LogicPkt}
use wxf_im.Wire.Pkt.Packet.{must_read_logic_pkt}
use wxf_im.Conn.{Frame}
use wxf_im.Container.Clients.{Client}
use wxf_im.Container.Forward.{Routes, forward}
use wxf_im.Gateway.ChannelId.{channel_id, channel_id-injective, generate_channel_id}
use wxf_im.Gateway.Handler.{
  Login, Accepted, command_login_sign_in, sn_login, accept, after_packet, after_body, after_token,
  after_forward, admit, login_packet,
}

module _ (routes : Routes) (l : Login) where
  -- A login that Accept admits.
  pub record IsAdmitted (f : Frame) (seq : ℕ) (a : Accepted) (id : Bytes) : Type 0 where
    pub req : LogicPkt
    pub rest : Bytes
    pub login : LoginReq
    pub tk : Token
    pub client : Client
    pub payload : Bytes
    pub is_packet : must_read_logic_pkt l.header f.payload ≡ ok (req, rest)
    pub is_login : req.command ≡ command_login_sign_in
    pub has_body : Logic.read_body l.login_req req ≡ ok login
    pub has_token : l.decoder default_secret login.token ≡ some tk
    pub not_expired : l.now ≤ tk.exp
    pub fresh_id : id ≡ channel_id l.service_id tk.account (next seq).0
    pub forwarded :
        forward l.header routes sn_login (some (login_packet routes l req tk id))
        ≡ ok (client, payload)
    pub passed_on : a.sent ≡ some (client, payload)
    pub silent : a.written ≡ []

  parse-eq-ok :
      (text : Bytes) (tk : Token)
      → parse l.decoder l.now default_secret text ≡ ok tk
      → (l.decoder default_secret text ≡ some tk) × (l.now ≤ tk.exp)
  unfolding parse valid
  parse-eq-ok text tk h = ground arith

  after_packet-eq-ok :
      (seq : ℕ) (id : Bytes) (m : Outcome (LogicPkt × Bytes))
      → (after_packet routes l seq m).result ≡ ok id
      → (p : LogicPkt × Bytes) × (m ≡ ok p)
        × (p.0.command ≡ command_login_sign_in)
        × (after_packet routes l seq m
            ≡ after_body routes l p.0 seq (Logic.read_body l.login_req p.0))
  unfolding after_packet
  after_packet-eq-ok seq id (ok (req, rest)) h =
      elim (bytes_eq-cases req.command command_login_sign_in) [
        | inl (t, e) ↦ ((req, rest), refl, e, rw t)
        | inr (t, e) ↦ absurd (cc (rw t at h))
      ]
  after_packet-eq-ok seq id (err e) h = cc
  after_packet-eq-ok seq id panicked h = cc

  after_body-eq-ok :
      (req : LogicPkt) (seq : ℕ) (id : Bytes) (m : Outcome LoginReq)
      → (after_body routes l req seq m).result ≡ ok id
      → (login : LoginReq) × (m ≡ ok login)
        × (after_body routes l req seq m
            ≡ after_token routes l req seq (parse l.decoder l.now default_secret login.token))
  unfolding after_body
  after_body-eq-ok req seq id (ok login) h = (login, refl, refl)
  after_body-eq-ok req seq id (err e) h = cc
  after_body-eq-ok req seq id panicked h = cc

  after_token-eq-ok :
      (req : LogicPkt) (seq : ℕ) (id : Bytes) (m : Outcome Token)
      → (after_token routes l req seq m).result ≡ ok id
      → (tk : Token) × (m ≡ ok tk) × (after_token routes l req seq m ≡ admit routes l req tk seq)
  unfolding after_token
  after_token-eq-ok req seq id (ok tk) h = (tk, refl, refl)
  after_token-eq-ok req seq id (err e) h = cc
  after_token-eq-ok req seq id panicked h = cc

  after_forward-eq-ok :
      (new_id id : Bytes) (seq : ℕ) (m : Outcome (Client × Bytes))
      → (after_forward routes l new_id seq m).result ≡ ok id
      → (s : Client × Bytes) × (m ≡ ok s)
        × (new_id ≡ id)
        × ((after_forward routes l new_id seq m).sent ≡ some s)
        × ((after_forward routes l new_id seq m).written ≡ [])
  unfolding after_forward
  after_forward-eq-ok new_id id seq (ok s) h = (s, refl, ground arith, refl, refl)
  after_forward-eq-ok new_id id seq (err e) h = cc
  after_forward-eq-ok new_id id seq panicked h = cc

  admit-eq-ok :
      (req : LogicPkt) (tk : Token) (seq : ℕ) (id : Bytes)
      → (admit routes l req tk seq).result ≡ ok id
      → (s : Client × Bytes) × (id ≡ channel_id l.service_id tk.account (next seq).0)
        × (forward l.header routes sn_login (some (login_packet routes l req tk id)) ≡ ok s)
        × ((admit routes l req tk seq).sent ≡ some s)
        × ((admit routes l req tk seq).written ≡ [])
  unfolding admit generate_channel_id
  admit-eq-ok req tk seq id h =
      let new_id = channel_id l.service_id tk.account (next seq).0 in
      let (s, e, same, sent, silent) =
        after_forward-eq-ok new_id id (next seq).1
          (forward l.header routes sn_login (some (login_packet routes l req tk new_id))) h in
      (s, sym same, rw (← same) e, sent, silent)

  -- Accept returns a channel id only for a login request whose token is signed and has not expired;
  -- the id is a new one for the token's account, the session with it went to the login service,
  -- and nothing was written to the user.
  pub accept_sound :
      (f : Frame) (seq : ℕ) (id : Bytes)
      → (accept routes l (ok f) seq).result ≡ ok id
      → IsAdmitted f seq (accept routes l (ok f) seq) id
  unfolding accept
  accept_sound f seq id h =
      let ((req, rest), packet, command, e1) =
        after_packet-eq-ok seq id (must_read_logic_pkt l.header f.payload) h in
      let (login, body, e2) =
        after_body-eq-ok req seq id (Logic.read_body l.login_req req) (rw e1 at h) in
      let (tk, parsed, e3) =
        after_token-eq-ok req seq id (parse l.decoder l.now default_secret login.token)
          (rw (e1, e2) at h) in
      let (s, new_id, forwarded, sent, silent) = admit-eq-ok req tk seq id (rw (e1, e2, e3) at h) in
      let (decoded, alive) = parse-eq-ok login.token tk parsed in
      let whole = e1 ∙ e2 ∙ e3 in
      record {
        req = req;
        rest = rest;
        login = login;
        tk = tk;
        client = s.0;
        payload = s.1;
        is_packet = packet;
        is_login = command;
        has_body = body;
        has_token = decoded;
        not_expired = alive;
        fresh_id = new_id;
        forwarded = forwarded;
        passed_on = ap (λ (a : Accepted). a.sent) whole ∙ sent;
        silent = ap (λ (a : Accepted). a.written) whole ∙ silent;
      }

-- The number of a login's id is the counter after the call of Next.
next-after_calls : (i : ℕ) → (next (after_calls i initial)).0 ≡ after_calls (suc i) initial
next-after_calls i =
    let (ranged, same) = next-InRange (after_calls i initial) (after_calls-InRange i) in
    unfold after_calls in sym same

-- Two logins that gateways admit after different numbers of calls of Next get different channel
-- ids, whatever their accounts and the gateways' service ids, if the calls before them differ by
-- fewer than 2^32 - 2.
pub accepted_ids_distinct :
    (routes routes' : Routes) (l l' : Login) (f g : Frame) (i j : ℕ) (id id' : Bytes)
    → (accept routes l (ok f) (after_calls i initial)).result ≡ ok id
    → (accept routes' l' (ok g) (after_calls j initial)).result ≡ ok id'
    → i < j
    → j < i + (max_uint32 - 1)
    → id ≢ id'
accepted_ids_distinct routes routes' l l' f g i j id id' h h' before near same =
    let a = accept_sound routes l f (after_calls i initial) id h in
    let b = accept_sound routes' l' g (after_calls j initial) id' h' in
    let number =
      channel_id-injective l.service_id l'.service_id a.tk.account b.tk.account
        (next (after_calls i initial)).0 (next (after_calls j initial)).0
        (cc (a.fresh_id, b.fresh_id)) in
    after_calls_distinct (suc i) (suc j) initial (omega arith) (omega arith) (omega arith)
      (cc (number, next-after_calls i, next-after_calls j))

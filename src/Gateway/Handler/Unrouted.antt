-- ===== src/Gateway/Handler/Unrouted.antt =====
-- Accept and Receive of wxf/services/gateway/serv/handler.go on the clients that connectToService of
-- wxf/container/container.go builds.
use wxf_im.Prelude.{
  ℕ, ◌≡◌, ◌≢◌, inl, inr, ◌⊎◌, Bool, some, List, [], ◌∷◌, >>=-eq-ok, guard, not, bytes_eq, Bytes,
  Outcome, ok, err, panicked, command_empty, channel_id_empty, no_services,
}
use wxf_im.Prelude.Assoc
use wxf_im.Wire.Pkt.Message.{Header, Codec}
use wxf_im.Wire.Pkt.Logic.{LogicPkt}
use wxf_im.Conn.{Frame}
use wxf_im.Naming.{Registration}
use wxf_im.Container.Clients.{Client, Clients}
use wxf_im.Container.Forward.{Routes, lookup, forward_with_selector, forward}
use wxf_im.Container.Connect.{connected_clients, connected-unroutable, unconnected-unroutable}
use wxf_im.Gateway.Handler.{Login, accept, sn_login, login_packet}
use wxf_im.Gateway.Handler.Accepting.{accept_sound}

-- The clients of a service are those that connectToService has built.
pub record IsConnected (r : Routes) (name : Bytes) : Type 0 where
  pub has_dialer : Bool
  pub dial : Registration → Outcome (Unit {0})
  pub watched : List Registration
  pub found : List Registration
  pub clients : Clients
  pub built : connected_clients has_dialer dial watched found ≡ ok clients
  pub known : Assoc.lookup name r.srv_clients ≡ some clients

-- Whether there is a first client.
empty_or_not : (cs : Clients) → (cs ≡ []) ⊎ (cs ≢ [])
empty_or_not [] = inl (λ i. [])
empty_or_not (x ∷ cs) = inr (λ e. cc e)

lookup-ne-ok :
    (r : Routes) (name : Bytes) (h : Header) (c : Client)
    → IsConnected r name
    → lookup r name h r.selector ≢ ok c
lookup-ne-ok r name h c on found = elim (empty_or_not on.clients) [
  | inl none_built ↦
      let fails : lookup r name h r.selector ≡ err no_services =
        unconnected-unroutable r name h (rw none_built at on.known) in
      cc (fails, found)
  | inr some_built ↦
      let fails : lookup r name h r.selector ≡ panicked =
        connected-unroutable r name h on.has_dialer on.dial on.watched on.found on.clients on.built
          some_built on.known in
      cc (fails, found)
]

-- Forward sends nothing to a service whose clients connectToService has built.
pub forward-ne-ok :
    (codec : Codec Header) (r : Routes) (name : Bytes) (p : LogicPkt) (s : Client × Bytes)
    → IsConnected r name
    → forward codec r name (some p) ≢ ok s
unfolding forward forward_with_selector
forward-ne-ok codec r name p s on h =
    let (u, has_command, e₁) = >>=-eq-ok (guard (not (bytes_eq p.command [])) command_empty) _ h in
    let (v, has_channel, e₂) =
      >>=-eq-ok (guard (not (bytes_eq p.channel_id [])) channel_id_empty) _ e₁ in
    let (c, routed, e₃) = >>=-eq-ok (lookup r name p.header r.selector) _ e₂ in
    lookup-ne-ok r name p.header c on routed

-- A gateway whose clients of the login service are those that connectToService has built, with
-- whatever the registry has reported and found, and whether there are any or none, admits no user:
-- Accept returns no channel id, whatever its first frame is.
pub nobody_admitted :
    (routes : Routes) (l : Login) (f : Frame) (seq : ℕ) (id : Bytes)
    → IsConnected routes sn_login
    → (accept routes l (ok f) seq).result ≢ ok id
nobody_admitted routes l f seq id on admitted =
    let a = accept_sound routes l f seq id admitted in
    forward-ne-ok l.header routes sn_login (login_packet routes l a.req a.tk id)
      (a.client, a.payload) on a.forwarded

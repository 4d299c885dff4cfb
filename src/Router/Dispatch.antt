-- ===== src/Router/Dispatch.antt =====
-- Resp and Dispatch of wxf/context.go: the answers and the pushes of a handler.
use wxf_im.Prelude.{
  Option, none, some, List, [], ◌∷◌, ◌++◌, if◌then◌else◌, Bytes, bytes_eq, Outcome, ok, err,
  panicked, ◌>>=◌,
}
use wxf_im.Prelude.Assoc.{Assoc, lookup, insert}
use wxf_im.Wire.Pkt.Message.{Flag, Status, Header, Codec}
use wxf_im.Wire.Pkt.Logic.{LogicPkt, new_from, write_body}

-- Location
pub record Location : Type 0 where
  pub channel_id : Bytes
  pub gate_id : Bytes

-- What the code asks of a Session.
pub record SessionIds : Type 0 where
  pub channel_id : Bytes
  pub gate_id : Bytes

-- (c *ContextImpl) Session(), a stub
abbrev pub stub_session : {A : Type 0} → Outcome A
stub_session = panicked

-- A call of Dispatcher.Push.
pub record Sent : Type 0 where
  pub gateway : Bytes
  pub channels : List Bytes
  pub packet : LogicPkt

-- group: the channels for each gateway
abbrev pub Group : Type 0
Group = Assoc (List Bytes)

abbrev pub ids_or_none : Option (List Bytes) → List Bytes
ids_or_none none = []
ids_or_none (some ids) = ids

-- group[gateway]
abbrev pub ids_at : Bytes → Group → List Bytes
ids_at gateway group = ids_or_none (lookup gateway group)

-- A body of the loop over the receivers, for a session that is there.
abbrev pub join_group : SessionIds → Location → Group → Group
join_group s recv group =
    if bytes_eq recv.channel_id s.channel_id
    then group
    else insert recv.gate_id (ids_at recv.gate_id group ++ recv.channel_id ∷ []) group

-- The loop over the groups: it returns in its first round, with the error of that push.
abbrev pub push_groups : LogicPkt → Outcome (Unit {0}) → Group → List Sent × Outcome (Unit {0})
push_groups packet pushed [] = ([], ok tt)
push_groups packet pushed ((gateway, ids) ∷ groups) =
    (record { gateway = gateway; channels = ids; packet = packet } ∷ [], pushed)

module _ {M : Type 0} (codec : Codec M) where
  -- The packet of Resp, and that of Dispatch.
  abbrev pub resp_packet : Header → Status → Option M → LogicPkt
  resp_packet request status body =
      let p = new_from request in
      let p' = write_body codec (record p { header = record p.header { status = status } }) body in
      record p' { header = record p'.header { flag = Flag.response } }

  abbrev pub push_packet : Header → Option M → LogicPkt
  push_packet request body =
      let p = new_from request in
      write_body codec (record p { header = record p.header { flag = Flag.push } }) body

-- What follows the grouping, where `visited` is the map in the order that range takes.
abbrev pub push_first :
    LogicPkt → Outcome (Unit {0}) → (Group → Group) → Outcome Group → List Sent × Outcome (Unit {0})
push_first packet pushed visited (ok group) = push_groups packet pushed (visited group)
push_first packet pushed visited (err e) = ([], err e)
push_first packet pushed visited panicked = ([], panicked)

-- for _, recv := range recvs: each round asks for the session.
unfoldable pub group_recvs : List Location → Group → Outcome Group
group_recvs [] group = ok group
group_recvs (recv ∷ recvs) group = do s ← stub_session; group_recvs recvs (join_group s recv group)

-- `pushed` is what the call of Push returns.
module _ {M : Type 0} (codec : Codec M) (pushed : Outcome (Unit {0})) where
  -- What Resp does with the session that its log line and its call of Push ask for.
  abbrev pub resp_to :
      Header → Status → Option M → Outcome SessionIds → List Sent × Outcome (Unit {0})
  resp_to request status body (ok s) = (
    record {
      gateway = s.gate_id;
      channels = s.channel_id ∷ [];
      packet = resp_packet codec request status body;
    }
        ∷ [],
    pushed,
  )
  resp_to request status body (err e) = ([], err e)
  resp_to request status body panicked = ([], panicked)

  -- Resp(status, body)
  unfoldable pub resp : Header → Status → Option M → List Sent × Outcome (Unit {0})
  resp request status body = resp_to request status body stub_session

  -- Dispatch(body, recvs...)
  unfoldable pub dispatch :
      (Group → Group) → Header → Option M → List Location → List Sent × Outcome (Unit {0})
  dispatch visited request body [] = ([], ok tt)
  dispatch visited request body (recv ∷ recvs) =
      push_first (push_packet codec request body) pushed visited (group_recvs (recv ∷ recvs) [])

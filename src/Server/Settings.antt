-- ===== src/Server/Settings.antt =====
-- NewServer and the setters of wxf/tcp/server.go and wxf/websocket/server.go, and what Start
-- checks before it listens.
use wxf_im.Prelude.{
  ℕ, ◌*◌, ◌^◌, ◌≡◌, refl, Option, none, some, Outcome, ok, err, state_listener_nil,
}
use wxf_im.Client.Heartbeat.{default_read_wait, default_write_wait}

-- wxf.DefaultLoginWait, in nanoseconds
abbrev pub default_login_wait : ℕ
default_login_wait = 10 * 10 ^ 9

-- ServerOptions; a duration is a number of nanoseconds.
pub record ServerOptions : Type 0 where
  pub login_wait : ℕ
  pub read_wait : ℕ
  pub write_wait : ℕ

-- The fields of a Server that are set before Start; `none` is nil. `H` stands for the handlers,
-- `M` for a ChannelMap.
pub record Settings (H M : Type 0) : Type 0 where
  pub acceptor : Option H
  pub message_listener : Option H
  pub state_listener : Option H
  pub channel_map : Option M
  pub options : ServerOptions

-- if s.… == nil
abbrev pub set_or : {V : Type 0} → V → Option V → Option V
set_or default none = some default
set_or default (some v) = some v

module _ {H M : Type 0} where
  -- NewServer of both packages
  abbrev pub new_server : Settings H M
  new_server = record {
    acceptor = none;
    message_listener = none;
    state_listener = none;
    channel_map = none;
    options = record {
      login_wait = default_login_wait;
      read_wait = default_read_wait;
      write_wait = default_write_wait;
    };
  }

  abbrev pub set_acceptor : H → Settings H M → Settings H M
  set_acceptor h s = record s { acceptor = some h }

  abbrev pub set_message_listener : H → Settings H M → Settings H M
  set_message_listener h s = record s { message_listener = some h }

  abbrev pub set_state_listener : H → Settings H M → Settings H M
  set_state_listener h s = record s { state_listener = some h }

  abbrev pub set_read_wait : ℕ → Settings H M → Settings H M
  set_read_wait wait s = record s { options = record s.options { read_wait = wait } }

  abbrev pub set_channel_map : M → Settings H M → Settings H M
  set_channel_map m s = record s { channel_map = some m }

  -- The checks of tcp Start, with `new(defaultAcceptor)` and `wxf.NewChannels(100)`, and those of
  -- websocket Start, which sets the acceptor first.
  unfoldable pub tcp_prepare : H → M → Settings H M → Outcome (Unit {0}) × Settings H M
  tcp_prepare default_acceptor new_channels s = elim s.state_listener [
    | none ↦ (err state_listener_nil, s)
    | some h ↦ (
      ok tt,
      record s {
        acceptor = set_or default_acceptor s.acceptor;
        channel_map = set_or new_channels s.channel_map;
      },
    )
  ]

  unfoldable pub ws_prepare : H → M → Settings H M → Outcome (Unit {0}) × Settings H M
  ws_prepare default_acceptor new_channels s =
      let s' : Settings H M = record s { acceptor = set_or default_acceptor s.acceptor } in
      elim s.state_listener [
        | none ↦ (err state_listener_nil, s')
        | some h ↦ (ok tt, record s' { channel_map = set_or new_channels s.channel_map })
      ]

  -- What the three RunServerStart set on a new server.
  abbrev pub configured : H → ℕ → Settings H M
  configured h wait =
      set_state_listener h (set_message_listener h (set_acceptor h (set_read_wait wait new_server)))

  -- Both servers prepare alike where a StateListener is set.
  pub ws_prepare-tcp_prepare :
      (default_acceptor : H) (new_channels : M) (s : Settings H M) (h : H)
      → s.state_listener ≡ some h
      → ws_prepare default_acceptor new_channels s ≡ tcp_prepare default_acceptor new_channels s
  unfolding ws_prepare tcp_prepare
  ws_prepare-tcp_prepare default_acceptor new_channels s h e = rw (e, ws_prepare, tcp_prepare) refl

  -- A server that RunServerStart configures starts with its own handler and wait, and with new
  -- channels.
  pub tcp_prepare-configured :
      (default_acceptor : H) (new_channels : M) (h : H) (wait : ℕ)
      → tcp_prepare default_acceptor new_channels (configured h wait)
        ≡ (ok tt, set_channel_map new_channels (configured h wait))
  unfolding tcp_prepare
  tcp_prepare-configured default_acceptor new_channels h wait = refl

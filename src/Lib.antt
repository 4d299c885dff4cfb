-- ===== src/Lib.antt =====
-- wxf-IM: an instant-messaging server in Go. Users connect to a gateway, over TCP or WebSocket; the
-- gateway checks their login, and passes their packets to a logic service; the logic service answers
-- through the gateway. Gateways and services find each other through a registry. This library models
-- the Go packages under wxf/.
--
-- Parts, from the wire up. Each file opens with the code that it models.
--   Prelude      lists, byte strings, Go's strings.Split and decimal numbers, (value, error) results
--                with panics (Outcome), maps with string keys (Assoc), and permutations (Perms).
--   Wire.Endian  wxf/wire/endian/helper.go: integers and length-prefixed bytes. An io.Reader is the
--                list of bytes to come, and Wire.Writer an io.Writer that may fail after some bytes.
--   Wire.Seq     wxf/wire/seq.go: the sequence counter, called alone, and by callers whose atomic
--                actions interleave by a schedule.
--   Wire.Token   wxf/wire/token/jwt.go: the check of a login token.
--   Wire.Pkt     wxf/wire/pkt: message types (Message), metadata (Meta), the two kinds of packet
--                (Basic, Logic), and their form on the wire (Packet).
--   Conn         wxf/constants.go; Tcp: wxf/tcp/connection.go, its frames, and goroutines that write
--                them without a lock (Interleaving); Websocket: wxf/websocket/connection.go, and the
--                calls of wxf/websocket/client.go that write and read; Frames: the interface
--                Frame of wxf/server.go over both kinds of frame.
--   Channel      wxf/event.go, channel.go and channels.go: a connection with its write buffer and
--                its read loop. Pushes and rounds of the writing goroutine interleave by a schedule.
--                WriteLoop.Received: from Push to the client's ReadFrame; TcpMessages and WsMessages:
--                from a client's Send to the read loop of a server. Deadlines: NewChannel, the waits,
--                and what its goroutines set on the connection.
--   Client       wxf/tcp/client.go and wxf/websocket/client.go: the state of a client connection,
--                sequences of its calls (Calls), its pings (Heartbeat), the WebSocket client (Websocket).
--   Server       wxf/tcp/server.go and wxf/websocket/server.go: push, shutdown, what is set
--                before Start (Settings), what Start does with a connection (Connection), and the
--                goroutines of all connections as a machine over the channel map (Registry).
--   Naming       wxf/naming/service.go and wxf/naming/consul/naming.go: the registry client; Register:
--                what it hands to consul, and what it finds again.
--   Container    wxf/container: its life cycle, the clients of other services (Clients, Connect), the
--                choice among them (Selector, Forward.Routing), the way of packets up (Forward) and
--                down (Push).
--   Gateway      wxf/services/gateway/serv/handler.go: what a gateway does with connections, also on
--                the clients that the container builds (Handler.Unrouted); Dialer:
--                wxf/services/gateway/serv/dialer.go, its handshake with a logic service.
--   Router       wxf/router.go, and Next of wxf/context.go: chains of handlers. A handler is the list of
--                what it does in a run, its calls of Next among it. Dispatch: Resp and Dispatch.
--   LogicServer  wxf/services/server/serv/handler.go: what a logic service does with packets;
--                Login: wxf/services/server/handler/login_handler.go over the answers of its context;
--                Routes: the routes of wxf/services/server/server.go, and the handlers on
--                wxf/context.go; Serving: Receive with the handlers that it runs.
--   Delivery     the way of a packet from LogicServer.Dispatcher to the channels at Container.Push.
--   Upstream     packets between LogicServer.Handler and Container.Push: Crash and Spoof are about
--                packets that come to the gateway with a sender's own entry under dest.channels.
--   Examples     wxf/examples: the dialer of a user (Dialer) and its Handshake with a gateway, and the
--                mock client and server (Mock), with a whole session of theirs (Mock.Echo).
--   Startup      wxf/services/server/conf/config.go, wxf/net.go, and RunServerStart of the services: how
--                the configuration, the server and the container come together.
--   Tests        runs at concrete inputs.
--
-- Functions keep the code's names in snake case, ReadBytes is read_bytes. A byte is a natural number,
-- and a fixed-width integer keeps its wrap-around where the code can reach it. A function that changes
-- an object returns the object after it. A call that leaves the program is an effect in the result, or
-- its answer an argument: so protobuf (Codec), the JWT library (Decoder), the consul API, the WebSocket
-- library (Ws), viper and the network are parameters. Of protobuf the theorems assume at most that it
-- restores what it marshalled (Restores). What a session storage returns is an argument too
-- (LoginContext, Stored): the one of the repository has no working method. A nil map, a nil Dialer and a
-- nil handler are told apart from others where the code panics on them.
--
-- Recursion is on lists, so the models end; Conn.Tcp.read_frames takes fuel, one unit for each
-- call of ReadFrame, and Router.next, one for each handler that it runs. A frame takes a byte at
-- least, so more fuel than bytes is enough; Next raises the index at each handler, so more fuel than
-- handlers is. The loop of the mock client that sends counts its rounds down from six.
--
-- Not modelled: timers and logs, and what a deadline that passes does to a call; accessors of one
-- field; the stubs of wxf/storage/redis_impl.go, which all panic; the commands that
-- wxf/examples/main.go hands to cobra. ContextImpl.Session and RespWithError are stubs that
-- panic, and are modelled so; DoSysLogin and DoSysLogout are also modelled over the interface Context. The routes of the logic service do not reach its
-- handler, which starts empty: both this handler and one that has them are modelled. A Go map and
-- sync.Map are gone through in an unspecified order; the model takes the order of the association
-- list, or an argument where the order matters.
pub mod Prelude
pub mod Wire
pub mod Conn
pub mod Channel
pub mod Container
pub mod LogicServer
pub mod Delivery
pub mod Upstream
mod Tests
pub mod Naming
pub mod Gateway
pub mod Router
pub mod Server
pub mod Startup
pub mod Client
pub mod Examples

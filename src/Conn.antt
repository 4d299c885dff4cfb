-- ===== src/Conn.antt =====
-- Frames and the connections that carry them: OpCode, Frame and Conn of wxf/server.go,
-- wxf/constants.go, and the implementations of wxf/tcp and wxf/websocket.
pub mod Tcp
pub mod Websocket
pub mod Frames
use wxf_im.Prelude.{ℕ, Bytes}

-- type OpCode byte, and its values in wxf/constants.go
abbrev pub op_continuation : ℕ
op_continuation = 0x0

abbrev pub op_text : ℕ
op_text = 0x1

abbrev pub op_binary : ℕ
op_binary = 0x2

abbrev pub op_close : ℕ
op_close = 0x8

abbrev pub op_ping : ℕ
op_ping = 0x9

abbrev pub op_pong : ℕ
op_pong = 0xa

pub record Frame : Type 0 where
  pub op_code : ℕ
  pub payload : Bytes

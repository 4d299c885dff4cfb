-- ===== src/Gateway/Dialer.antt =====
-- TcpDialer of wxf/services/gateway/serv/dialer.go, and the Accept that it meets at a logic
-- service. The connection is what net.DialTimeout returns.
use wxf_im.Prelude.{Bytes, Outcome, ok, err, panicked, ◌>>=◌, or_fail, external}
use wxf_im.Wire.Writer.{Writer, Written}
use wxf_im.Wire.Pkt.Message.{InnerHandshakeReq, Codec}
use wxf_im.Conn.{Frame, op_binary}
use wxf_im.Conn.Tcp.{read_frame, write_frame}
use wxf_im.LogicServer.Handler

-- The results of WriteFrame, in DialAndHandShake.
abbrev pub after_write : Written → Outcome Writer
after_write (ok u, w) = ok w
after_write (err e, w) = err e
after_write (panicked, w) = panicked

-- (d *TcpDialer) DialAndHandShake(ctx), with d.ServiceId
unfoldable pub dial_and_hand_shake :
    Codec InnerHandshakeReq → Bytes → Outcome Writer → Outcome Writer
dial_and_hand_shake codec service_id dial = do
  conn ← dial
  bts ← or_fail (codec.marshal (record { service_id = service_id })) (external 0)
  after_write (write_frame op_binary bts conn)

-- The first frame that Accept of the logic service reads from what was written.
abbrev pub first_frame : Bytes → Outcome Frame
first_frame src = do (f, rest) ← read_frame src; ok f

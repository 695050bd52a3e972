-- ===== src/Net/Tcp/Receive.antt =====
-- A segment from the other side as `tcp_recv` of src/net/tcp.c takes it.
use octans.Prelude.{ℕ, ◌^◌, ◌<◌, ◌≡◌, List, []}
use octans.Net.Ip.{ip_frame}
use octans.Net.Segment.{Rx, TcpSock, Header, ipproto_tcp, tcp_segment}

-- The fields have their widths, and the address and the ports are those of the socket's other side.
pub record IsFor (h : Header) (s : TcpSock) : Type 0 where
  pub source : h.src_ip ≡ s.remote_ip
  pub from_port : h.src_port ≡ s.remote_port
  pub to_port : h.dst_port ≡ s.local_port
  pub addr : h.src_ip < 2 ^ 32
  pub port : h.src_port < 2 ^ 16
  pub port' : h.dst_port < 2 ^ 16
  pub number : h.seq < 2 ^ 32
  pub number' : h.ack < 2 ^ 32
  pub flags : h.flags < 256

-- What is read from a segment.
abbrev pub rx_of : Header → List ℕ → Rx
rx_of h bytes = record {
  payload = bytes;
  seq = h.seq;
  ack = h.ack;
  src_ip = h.src_ip;
  src_port = h.src_port;
  dst_port = h.dst_port;
  flags = h.flags;
}

-- The frame that acknowledges up to `ack`, to the gateway.
abbrev pub ack_frame : TcpSock → ℕ → List ℕ → List ℕ → List ℕ
ack_frame s ack gateway_mac own_mac =
    ip_frame gateway_mac own_mac 0 ipproto_tcp s.local_ip s.remote_ip (
      tcp_segment
        (record {
          src_ip = s.local_ip;
          dst_ip = s.remote_ip;
          src_port = s.local_port;
          dst_port = s.remote_port;
          seq = s.snd_nxt;
          ack = ack;
          flags = 16;
        })
        [])

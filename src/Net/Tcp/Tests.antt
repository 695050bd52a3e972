-- ===== src/Net/Tcp/Tests.antt =====
-- src/net/tcp.c with a card that has one frame waiting.
use octans.Prelude.{ℕ, pos, List, [], ◌∷◌, some, add32}
use octans.Net.Ip.{ip_frame, guest_ip, gateway_ip}
use octans.Net.Segment.{TcpSock, Header, established, ipproto_tcp, tcp_segment}
use octans.Net.Tcp.{Card}

abbrev mac : List ℕ
mac = 82 ∷ 84 ∷ 0 ∷ 18 ∷ 52 ∷ 86 ∷ []

-- The frames that wait, and those that were sent.
abbrev Wire : Type 0
Wire = List (List ℕ) × List (List ℕ)

receive : Wire → Wire × List ℕ
receive ([], sent) = (([], sent), [])
receive (frame ∷ waiting, sent) = ((waiting, sent), frame)

abbrev card : Card Wire
card = record {
  link = record {
    arp_resolve = λ ip w. (w, some mac);
    ether_get_mac = λ w. mac;
    ether_send = λ frame w. ((w.0, frame ∷ w.1), pos 0);
  };
  ether_recv = λ most w. receive w;
  stale = λ w. [];
}

abbrev sock : TcpSock
sock = record {
  state = established;
  local_ip = guest_ip;
  remote_ip = gateway_ip;
  local_port = 49152;
  remote_port = 80;
  snd_una = 1000;
  snd_nxt = 1000;
  rcv_nxt = 500;
  rx_buf = [];
}

abbrev header : Header
header = record {
  src_ip = gateway_ip;
  dst_ip = guest_ip;
  src_port = 80;
  dst_port = 49152;
  seq = 500;
  ack = 1000;
  flags = 24;
}

abbrev bytes : List ℕ
bytes = 104 ∷ 105 ∷ 33 ∷ []

abbrev frame : List ℕ
frame = ip_frame mac mac 7 ipproto_tcp gateway_ip guest_ip (tcp_segment header bytes)

-- The acknowledgement of the three bytes.
abbrev ack : List ℕ
ack = ip_frame mac mac 0 ipproto_tcp guest_ip gateway_ip (
    tcp_segment
      (record {
        src_ip = guest_ip;
        dst_ip = gateway_ip;
        src_port = 49152;
        dst_port = 80;
        seq = 1000;
        ack = add32 500 3;
        flags = 16;
      })
      [])

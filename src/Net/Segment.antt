-- ===== src/Net/Segment.antt =====
-- The data of src/net/tcp.c, the parse of a received segment, and the making of one.
use octans.Prelude.{
  ℕ, ◌+◌, ◌*◌, ◌/◌, ◌%◌, ◌^◌, List, ◌∷◌, ◌++◌, Option, none, some, Bool, true, false, ◌&&◌, ◌||◌,
  not, ltb, ◌==◌, if◌then◌else◌, length, drop, get_or,
}
use octans.Net.Ip.{
  Packet, net_cksum, net_put_be16, net_put_be32, net_get_be16, net_get_be32, ip_recv,
}

-- `tcp_rx_t`.
pub record Rx : Type 0 where
  pub payload : List ℕ
  pub seq : ℕ
  pub ack : ℕ
  pub src_ip : ℕ
  pub src_port : ℕ
  pub dst_port : ℕ
  pub flags : ℕ

-- TCP_CLOSED and the states behind it that the file sets.
pub data TcpState : Type 0 where
  closed : TcpState
  syn_sent : TcpState
  established : TcpState
  fin_wait1 : TcpState

-- `tcp_sock_t`; `rx_buf` holds the `rx_len` bytes that stand in it. The file has no use for `tx_buf`.
pub record TcpSock : Type 0 where
  pub state : TcpState
  pub local_ip : ℕ
  pub remote_ip : ℕ
  pub local_port : ℕ
  pub remote_port : ℕ
  pub snd_una : ℕ
  pub snd_nxt : ℕ
  pub rcv_nxt : ℕ
  pub rx_buf : List ℕ

abbrev pub is_established : TcpState → Bool
is_established established = true
is_established _ = false

-- IPPROTO_TCP and the flags TCP_F_*.
abbrev pub ipproto_tcp : ℕ
ipproto_tcp = 6

abbrev pub flag_fin : ℕ
flag_fin = 1

abbrev pub flag_syn : ℕ
flag_syn = 2

abbrev pub flag_psh : ℕ
flag_psh = 8

abbrev pub flag_ack : ℕ
flag_ack = 16

-- NET_PKT_MAX.
abbrev pub net_pkt_max : ℕ
net_pkt_max = 2048

abbrev pub segment_rx : List ℕ → ℕ → Rx
segment_rx seg src_ip =
    let doff = get_or seg 12 0 / 16 * 4 in
    record {
      payload = drop doff seg;
      seq = net_get_be32 seg 4;
      ack = net_get_be32 seg 8;
      src_ip = src_ip;
      src_port = net_get_be16 seg 0;
      dst_port = net_get_be16 seg 2;
      flags = get_or seg 13 0;
    }

-- The part behind `ip_recv`.
unfoldable pub parse_segment : Packet → TcpSock → Option Rx
parse_segment p s =
    let seg = p.payload in
    let doff = get_or seg 12 0 / 16 * 4 in
    let out = segment_rx seg p.src in
    if not (p.proto == ipproto_tcp) || ltb (length seg) 20
    then none
    else if ltb doff 20 || ltb (length seg) doff
    then none
    else if not (out.dst_port == s.local_port) || not (out.src_port == s.remote_port)
    then none
    else if not (s.remote_ip == 0) && not (p.src == s.remote_ip)
    then none
    else some out

unfoldable pub tcp_parse_rx : List ℕ → TcpSock → Option Rx
tcp_parse_rx frame s = elim (ip_recv frame) [ none ↦ none | some p ↦ parse_segment p s ]

-- What a packet is made of.
pub record Header : Type 0 where
  pub src_ip : ℕ
  pub dst_ip : ℕ
  pub src_port : ℕ
  pub dst_port : ℕ
  pub seq : ℕ
  pub ack : ℕ
  pub flags : ℕ

abbrev pub pseudo_header : Header → ℕ → List ℕ
pseudo_header h tcplen =
    net_put_be32 h.src_ip
    ++ (net_put_be32 h.dst_ip ++ (0 ∷ ipproto_tcp ∷ net_put_be16 (tcplen % 2 ^ 16)))

-- The header's bytes before and behind the checksum.
abbrev pub segment_front : Header → List ℕ
segment_front h =
    net_put_be16 h.src_port
    ++ (net_put_be16 h.dst_port
        ++ (net_put_be32 h.seq ++ (net_put_be32 h.ack ++ (0x50 ∷ h.flags ∷ net_put_be16 4096))))

-- The header with the two bytes of the checksum, and the data.
abbrev pub segment_with : Header → ℕ → ℕ → List ℕ → List ℕ
segment_with h c0 c1 bytes = segment_front h ++ (c0 ∷ c1 ∷ 0 ∷ 0 ∷ bytes)

unfoldable pub tcp_segment : Header → List ℕ → List ℕ
tcp_segment h bytes =
    let sum = net_cksum (pseudo_header h (20 + length bytes)) 0 in
    let csum = net_cksum (segment_with h 0 0 bytes) sum in
    segment_with h (csum % 256) (csum / 256) bytes

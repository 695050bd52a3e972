-- ===== src/Net/Tcp.antt =====
-- src/net/tcp.c, over the IP layer of src/net/ip.c and a record of the card's calls. A received frame
-- is the list of its bytes, and the delays of the polling loops are left out.
mod Tests
pub mod Receive
use octans.Prelude.{
  ℕ, zero, suc, ◌+◌, ◌-◌, ◌*◌, ◌/◌, ◌%◌, ◌^◌, ℤ, pos, negsuc, List, [], ◌∷◌, ◌++◌, Option, none,
  some, Bool, true, false, ◌&&◌, ◌||◌, not, ltb, ◌==◌, if◌then◌else◌, length, take, drop, get_or,
  add32, bit_at,
}
use octans.Net.Ip.{
  Link, Packet, net_cksum, net_put_be16, net_put_be32, net_get_be16, net_get_be32, guest_ip,
  gateway_ip, ip_frame, ip_recv,
}
use octans.Net.Segment.{
  Rx, TcpState, TcpSock, is_established, ipproto_tcp, flag_fin, flag_syn, flag_psh, flag_ack,
  net_pkt_max, segment_rx, parse_segment, tcp_parse_rx, Header, pseudo_header, segment_front,
  segment_with, tcp_segment, closed, syn_sent, established, fin_wait1,
}

-- The card: the calls of src/net/arp.c and src/net/ether.c, and the bytes of an array on the stack
-- that nobody has written.
pub record Card (W : Type 0) : Type 0 where
  pub link : Link W
  pub ether_recv : ℕ → W → W × List ℕ
  pub stale : W → List ℕ

abbrev pub header_of : TcpSock → ℕ → ℕ → Header
header_of s ack flags = record {
  src_ip = s.local_ip;
  dst_ip = s.remote_ip;
  src_port = s.local_port;
  dst_port = s.remote_port;
  seq = s.snd_nxt;
  ack = ack;
  flags = flags;
}

-- The test of a frame that may answer the SYN.
abbrev pub answers_syn : TcpSock → Rx → Bool
answers_syn s in_ =
    not (bit_at in_.flags 1 == 0) && not (bit_at in_.flags 4 == 0) && in_.ack == s.snd_nxt

-- A segment in order: what fits is stored, but all of it counts as received.
unfoldable pub accept : TcpSock → Rx → TcpSock
accept s in_ =
    let fin = not (bit_at in_.flags 0 == 0) in
    let next = add32 s.rcv_nxt (length in_.payload) in
    record s {
      rx_buf = s.rx_buf ++ take (net_pkt_max - length s.rx_buf) in_.payload;
      rcv_nxt = if fin then add32 next 1 else next;
      state = if fin then closed else s.state;
    }

module _ {W : Type 0} (card : Card W) where
  -- The header of IP is the one that `ip_send` makes, with the identification 0.
  unfoldable pub tcp_build_pkt : Header → List ℕ → W → W × Option (List ℕ)
  tcp_build_pkt h bytes w =
      let (w', gw) = card.link.arp_resolve gateway_ip w in
      elim gw [
        | none ↦ (w', none)
        | some gw_mac ↦ (
          w',
          some (
              ip_frame gw_mac (card.link.ether_get_mac w) 0 ipproto_tcp h.src_ip h.dst_ip
                (tcp_segment h bytes)),
        )
      ]

  -- A packet is sent, or the call fails before.
  unfoldable pub send_packet : Header → List ℕ → W → W × Bool
  send_packet h bytes w =
      let (w', frame) = tcp_build_pkt h bytes w in
      elim frame [ none ↦ (w', false) | some f ↦ ((card.link.ether_send f w').0, true) ]

  -- `tcp_recv` does not look at the answer: where no packet was made, what stands in the array goes
  -- out.
  unfoldable pub send_ack : TcpSock → W → W
  send_ack s w =
      let (w', frame) = tcp_build_pkt (header_of s s.rcv_nxt flag_ack) [] w in
      elim frame [
        | none ↦ (card.link.ether_send (card.stale w') w').0
        | some f ↦ (card.link.ether_send f w').0
      ]

  -- The last part of a round that has found the answer.
  unfoldable pub complete : TcpSock → Rx → W → (TcpSock × W) × ℤ
  complete s in_ w =
      let s' = record s { rcv_nxt = add32 in_.seq 1; snd_una = in_.ack } in
      let (w', sent) = send_packet (header_of s' s'.rcv_nxt flag_ack) [] w in
      if sent then ((record s' { state = established }, w'), pos 0) else ((s', w'), negsuc 0)

  unfoldable pub wait_syn_ack : ℕ → TcpSock → W → (TcpSock × W) × ℤ
  wait_syn_ack zero s w = ((record s { state = closed }, w), negsuc 0)
  wait_syn_ack (suc retries) s w =
      let (w', rx) = card.ether_recv net_pkt_max w in
      let again = wait_syn_ack retries s w' in
      if ltb (length rx) 54 then again else elim (tcp_parse_rx rx s) [
        | none ↦ again
        | some in_ ↦ if answers_syn s in_ then complete s in_ w' else again
      ]

  -- 49152 + (snd_nxt & 0x3FFF) is 49152.
  unfoldable pub tcp_connect : ℕ → ℕ → TcpSock → W → (TcpSock × W) × ℤ
  tcp_connect dst_ip dst_port s w =
      let s' = record s {
        local_ip = guest_ip;
        remote_ip = dst_ip;
        remote_port = dst_port;
        snd_nxt = 0x10000000;
        local_port = 49152 + 0x10000000 % 2 ^ 14;
        rcv_nxt = 0;
        state = closed;
        snd_una = 0x10000000;
      } in
      let (w', sent) = send_packet (header_of s' 0 flag_syn) [] w in
      let waiting = record s' { snd_nxt = add32 s'.snd_nxt 1; state = syn_sent } in
      if sent then wait_syn_ack 400 waiting w' else ((s', w'), negsuc 0)

  unfoldable pub tcp_send : List ℕ → TcpSock → W → (TcpSock × W) × ℤ
  tcp_send bytes s w =
      let (w', sent) = send_packet (header_of s s.rcv_nxt (flag_psh + flag_ack)) bytes w in
      if not (is_established s.state)
      then ((s, w), negsuc 0)
      else if sent
      then ((record s { snd_nxt = add32 s.snd_nxt (length bytes) }, w'), pos (length bytes))
      else ((s, w'), negsuc 0)

  -- The FIN of a segment that brings nothing new, whatever its number.
  unfoldable pub take_fin : TcpSock → W → TcpSock × W
  take_fin s w =
      let s' = record s { rcv_nxt = add32 s.rcv_nxt 1 } in
      (record s' { state = closed }, send_ack s' w)

  -- A frame of this connection, or none: the end of the round, or the rounds that follow.
  unfoldable pub on_segment : TcpSock × W → TcpSock → W → Option Rx → TcpSock × W
  on_segment again s w none = again
  on_segment again s w (some in_) =
      if ltb 0 (length in_.payload) && in_.seq == s.rcv_nxt
      then (accept s in_, send_ack (accept s in_) w)
      else if not (bit_at in_.flags 0 == 0)
      then take_fin s w
      else again

  unfoldable pub poll_segments : ℕ → TcpSock → W → TcpSock × W
  poll_segments zero s w = (s, w)
  poll_segments (suc retries) s w =
      let (w', rx) = card.ether_recv net_pkt_max w in
      let again = poll_segments retries s w' in
      if ltb 0 (length s.rx_buf)
      then (s, w)
      else if ltb (length rx) 54
      then again
      else on_segment again s w' (tcp_parse_rx rx s)

  -- The bytes stand in `buf` up to the number that is returned.
  unfoldable pub tcp_recv : ℕ → TcpSock → W → (TcpSock × W) × ℤ × List ℕ
  tcp_recv most s w =
      let (s', w') = poll_segments 400 s w in
      let got = take most s'.rx_buf in
      if not (is_established s.state)
      then ((s, w), negsuc 0, [])
      else ((record s' { rx_buf = drop most s'.rx_buf }, w'), pos (length got), got)

  unfoldable pub tcp_close : TcpSock → W → (TcpSock × W) × ℤ
  tcp_close s w =
      let waiting = record s { state = fin_wait1 } in
      let (w', sent) = send_packet (header_of waiting s.rcv_nxt (flag_fin + flag_ack)) [] w in
      if not (is_established s.state)
      then ((s, w), pos 0)
      else if sent
      then ((record waiting { snd_nxt = add32 s.snd_nxt 1; state = closed }, w'), pos 0)
      else ((waiting, w'), negsuc 0)

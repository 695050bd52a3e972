-- ===== src/Net/Ip/Frame.antt =====
-- `ip_recv` on a frame that `ip_send` makes.
use octans.Prelude.{
  ℕ, ◌+◌, ◌-◌, ◌*◌, ◌/◌, ◌%◌, ◌^◌, ◌<◌, ◌≤◌, ◌≡◌, refl, ap, ◌∙◌, List, [], ◌∷◌, ◌++◌, some, false,
  arith, length, take_all, length-append, ltb, ◌||◌,
}
use octans.Net.Ip.{
  Link, ip_send, gateway_ip, net_cksum, ip_header, ip_frame, ip_recv, header_recv, header_front,
  header_back, guest_ip,
}
use octans.Net.Ip.Checksum.{net_cksum_verifies}

-- A header whose checksum is right is read back.
header_recv_lem :
    (c0 c1 id proto sip flen : ℕ) (payload : List ℕ)
    → let iplen = 20 + length payload in
      let header = header_front iplen id proto ++ (c0 ∷ c1 ∷ header_back sip guest_ip) in
      net_cksum header 0 ≡ 0
      → iplen < 2 ^ 16
      → sip < 2 ^ 32
      → 14 + iplen ≤ flen
      → header_recv (header ++ payload) flen
        ≡ some (record { proto = proto; src = sip; payload = payload })
unfolding header_recv
header_recv_lem c0 c1 id proto sip flen payload sums short addr fits =
    let n = 20 + length payload in
    let read : n % 2 ^ 16 / 256 % 256 * 256 + n % 2 ^ 16 % 256 ≡ n = omega (arith, short) in
    let src : sip / 2 ^ 24 % 256 * 2 ^ 24
          + sip / 2 ^ 16 % 256 * 2 ^ 16
          + sip / 256 % 256 * 256
          + sip % 256
        ≡ sip =
      omega (arith, addr) in
    let tests : (ltb 20 20 || ltb n 20 || ltb flen (14 + n)) ≡ false = ground (arith, fits) in
    rw (read, tests, sums, src, take_all (n - 20) payload (omega arith)) refl

six : (l : List ℕ) → length l ≡ 6 → (a b c d e f : ℕ) × (l ≡ a ∷ b ∷ c ∷ d ∷ e ∷ f ∷ [])
six (a ∷ b ∷ c ∷ d ∷ e ∷ f ∷ []) h = (a, b, c, d, e, f, refl)
six [] h = absurd (omega arith)
six (a ∷ []) h = absurd (omega arith)
six (a ∷ b ∷ []) h = absurd (omega arith)
six (a ∷ b ∷ c ∷ []) h = absurd (omega arith)
six (a ∷ b ∷ c ∷ d ∷ []) h = absurd (omega arith)
six (a ∷ b ∷ c ∷ d ∷ e ∷ []) h = absurd (omega arith)
six (a ∷ b ∷ c ∷ d ∷ e ∷ f ∷ g ∷ l) h = absurd (omega arith)

length-ip_header : (iplen id proto sip dst : ℕ) → length (ip_header iplen id proto sip dst) ≡ 20
unfolding ip_header
length-ip_header iplen id proto sip dst = refl

-- The header that `ip_send` makes is read back.
header_recv-ip_header :
    (id proto sip flen : ℕ) (payload : List ℕ)
    → proto < 256
    → sip < 2 ^ 32
    → 20 + length payload < 2 ^ 16
    → 34 + length payload ≤ flen
    → header_recv (ip_header (20 + length payload) id proto sip guest_ip ++ payload) flen
      ≡ some (record { proto = proto; src = sip; payload = payload })
unfolding ip_header
header_recv-ip_header id proto sip flen payload hp addr short fits =
    let front = header_front (20 + length payload) id proto in
    let back = header_back sip guest_ip in
    let csum = net_cksum (front ++ (0 ∷ 0 ∷ back)) 0 in
    header_recv_lem (csum % 256) (csum / 256) id proto sip flen payload
      (net_cksum_verifies 5 front back refl (omega (arith, hp, addr))) short addr
      (omega (arith, fits))

-- What stands in front of the header: two addresses and the type of the packet.
ip_recv_header :
    (gw_mac my_mac bytes : List ℕ)
    → length gw_mac ≡ 6
    → length my_mac ≡ 6
    → 20 ≤ length bytes
    → ip_recv (gw_mac ++ (my_mac ++ (8 ∷ 0 ∷ bytes))) ≡ header_recv bytes (14 + length bytes)
unfolding ip_recv
ip_recv_header gw_mac my_mac bytes hg hm long =
    let (a, b, c, d, e, f, gw) = six gw_mac hg in
    let (g, h, i, j, k, l, my) = six my_mac hm in
    let front = λ (xs : List ℕ). a ∷ b ∷ c ∷ d ∷ e ∷ f ∷ g ∷ h ∷ i ∷ j ∷ k ∷ l ∷ xs in
    let size : length (front (8 ∷ 0 ∷ bytes)) ≡ 14 + length bytes = omega arith in
    let near : ltb (14 + length bytes) 34 ≡ false = ground (arith, long) in
    rw (gw, my, size, near) refl

-- For two addresses of six bytes, a protocol of one byte, a source address of 32 bits and a payload
-- with which the frame fits into 2048 bytes, `ip_recv` reads from the frame to this machine the
-- protocol, the source and the payload that it was made of.
pub ip_recv-ip_frame :
    (gw_mac my_mac : List ℕ) (id proto sip : ℕ) (payload : List ℕ)
    → length gw_mac ≡ 6
    → length my_mac ≡ 6
    → proto < 256
    → sip < 2 ^ 32
    → 34 + length payload ≤ 2048
    → ip_recv (ip_frame gw_mac my_mac id proto sip guest_ip payload)
      ≡ some (record { proto = proto; src = sip; payload = payload })
unfolding ip_frame
ip_recv-ip_frame gw_mac my_mac id proto sip payload hg hm hp addr fits =
    let header = ip_header (20 + length payload) id proto sip guest_ip in
    let size : length (header ++ payload) ≡ 20 + length payload =
      length-append header payload
      ∙ ap (λ n. n + length payload)
          (length-ip_header (20 + length payload) id proto sip guest_ip) in
    ip_recv_header gw_mac my_mac (header ++ payload) hg hm (omega (arith, size))
    ∙ header_recv-ip_header id proto sip (14 + length (header ++ payload)) payload hp addr
        (omega (arith, fits)) (omega (arith, size))

-- When the gateway's address resolves, both addresses have six bytes, the protocol is one byte and
-- the frame fits into 2048 bytes: sending to this machine hands exactly one frame to the card and
-- answers what the card answers, with the next identification; and `ip_recv` reads from that frame
-- the protocol, this machine as the source, and the payload.
pub ip_send_received :
    {W : Type 0} (link : Link W) (gw_mac payload : List ℕ) (proto id : ℕ) (w w' : W)
    → link.arp_resolve gateway_ip w ≡ (w', some gw_mac)
    → length gw_mac ≡ 6
    → length (link.ether_get_mac w') ≡ 6
    → proto < 256
    → 34 + length payload ≤ 2048
    → (frame : List ℕ) × (ip_send link guest_ip proto payload (id, w)
        ≡ (((id + 1) % 2 ^ 16, (link.ether_send frame w').0), (link.ether_send frame w').1))
      × (ip_recv frame ≡ some (record { proto = proto; src = guest_ip; payload = payload }))
unfolding ip_send
ip_send_received link gw_mac payload proto id w w' found hg hm hp fits =
    let my_mac = link.ether_get_mac w' in
    (
      ip_frame gw_mac my_mac id proto guest_ip guest_ip payload,
      rw (ip_send, found, found) refl,
      ip_recv-ip_frame gw_mac my_mac id proto guest_ip payload hg hm hp (omega arith) fits,
    )

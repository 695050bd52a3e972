-- ===== src/Net/Ip.antt =====
-- The IP layer: src/net/ip.c, with the byte-order helpers of src/net/net.h. A buffer is the list of
-- its bytes, and the processor reads a `uint16_t` with the low byte first.
pub mod Checksum
pub mod Frame
mod Tests
use octans.Prelude.{
  ℕ, zero, suc, ◌+◌, ◌-◌, ◌*◌, ◌/◌, ◌%◌, ◌^◌, ℤ, pos, negsuc, List, [], ◌∷◌, ◌++◌, Option, none,
  some, Bool, true, false, ◌||◌, not, ltb, ◌==◌, if◌then◌else◌, length, get_or, take, drop,
  replicate, add32,
}

-- The loop over `p[i]`, and the last byte of an odd length, into the 32-bit `sum`.
unfoldable pub sum_words : List ℕ → ℕ → ℕ
sum_words [] sum = sum
sum_words (a ∷ []) sum = add32 sum (a * 256)
sum_words (a ∷ b ∷ bs) sum = sum_words bs (add32 sum (a + b * 256))

-- `while (sum >> 16) sum = (sum & 0xFFFF) + (sum >> 16);`, on fuel.
unfoldable pub fold_carry : ℕ → ℕ → ℕ
fold_carry zero sum = sum
fold_carry (suc fuel) sum =
    let rest = fold_carry fuel (sum % 2 ^ 16 + sum / 2 ^ 16) in
    if sum / 2 ^ 16 == 0 then sum else rest

-- Two rounds are enough for 32 bits.
unfoldable pub net_cksum : List ℕ → ℕ → ℕ
unfolding sum_words fold_carry
net_cksum bytes start = 2 ^ 16 - 1 - fold_carry 2 (sum_words bytes start) % 2 ^ 16

-- The bytes that `net_put_be16` and `net_put_be32` store.
abbrev pub net_put_be16 : ℕ → List ℕ
net_put_be16 v = v / 256 % 256 ∷ v % 256 ∷ []

abbrev pub net_put_be32 : ℕ → List ℕ
net_put_be32 v = v / 2 ^ 24 % 256 ∷ v / 2 ^ 16 % 256 ∷ v / 256 % 256 ∷ v % 256 ∷ []

-- Of the bytes from `i` on.
abbrev pub net_get_be16 : List ℕ → ℕ → ℕ
net_get_be16 p i = get_or p i 0 * 256 + get_or p (i + 1) 0

abbrev pub net_get_be32 : List ℕ → ℕ → ℕ
net_get_be32 p i =
    get_or p i 0 * 2 ^ 24
    + get_or p (i + 1) 0 * 2 ^ 16
    + get_or p (i + 2) 0 * 256
    + get_or p (i + 3) 0

-- 10.0.2.15 and 10.0.2.2.
abbrev pub guest_ip : ℕ
guest_ip = 0x0a00_020f

abbrev pub gateway_ip : ℕ
gateway_ip = 0x0a00_0202

-- The bytes before and behind the checksum in the header that `ip_send` makes.
abbrev pub header_front : ℕ → ℕ → ℕ → List ℕ
header_front iplen id proto =
    0x45 ∷ 0 ∷ net_put_be16 (iplen % 2 ^ 16) ++ (net_put_be16 id ++ (0 ∷ 0 ∷ 64 ∷ proto ∷ []))

abbrev pub header_back : ℕ → ℕ → List ℕ
header_back sip dst = net_put_be32 sip ++ net_put_be32 dst

-- The header with its checksum, which is stored low byte first.
unfoldable pub ip_header : ℕ → ℕ → ℕ → ℕ → ℕ → List ℕ
unfolding net_cksum
ip_header iplen id proto sip dst =
    let front = header_front iplen id proto in
    let back = header_back sip dst in
    let csum = net_cksum (front ++ (0 ∷ 0 ∷ back)) 0 in front ++ (csum % 256 ∷ csum / 256 ∷ back)

-- `frame[0..14 + iplen)` of `ip_send`.
unfoldable pub ip_frame : List ℕ → List ℕ → ℕ → ℕ → ℕ → ℕ → List ℕ → List ℕ
unfolding ip_header
ip_frame gw_mac my_mac id proto sip dst payload =
    gw_mac ++ (my_mac ++ (8 ∷ 0 ∷ ip_header (20 + length payload) id proto sip dst ++ payload))

-- The calls of src/net/arp.c and src/net/ether.c, which act on the card's state.
pub record Link (W : Type 0) : Type 0 where
  pub arp_resolve : ℕ → W → W × Option (List ℕ)
  pub ether_get_mac : W → List ℕ
  pub ether_send : List ℕ → W → W × ℤ

-- `ip_send`, with `g_ip_id` before and behind the call.
unfoldable pub ip_send : {W : Type 0} → Link W → ℕ → ℕ → List ℕ → ℕ × W → (ℕ × W) × ℤ
unfolding ip_frame
ip_send link dst_ip proto payload (id, w) =
    let (w', gw) = link.arp_resolve gateway_ip w in
    elim gw [
      | none ↦ ((id, w'), negsuc 0)
      | some gw_mac ↦
          let frame = ip_frame gw_mac (link.ether_get_mac w') id proto guest_ip dst_ip payload in
          let (w'', rc) = link.ether_send frame w' in (((id + 1) % 2 ^ 16, w''), rc)
    ]

-- What `ip_recv` stores.
pub record Packet : Type 0 where
  pub proto : ℕ
  pub src : ℕ
  pub payload : List ℕ

-- The tests of `ip_recv` from the header on; `iph` is the frame from byte 14 on.
unfoldable pub header_recv : List ℕ → ℕ → Option Packet
unfolding net_cksum
header_recv iph flen =
    let ihl = get_or iph 0 0 % 16 * 4 in
    let iplen = net_get_be16 iph 2 in
    if not (get_or iph 0 0 / 16 % 16 == 4)
    then none
    else if ltb ihl 20 || ltb iplen ihl || ltb flen (14 + iplen)
    then none
    else if not (net_cksum (take ihl iph) 0 == 0)
    then none
    else if not (net_get_be16 iph 6 % 2 ^ 14 == 0)
    then none
    else if not (net_get_be32 iph 16 == guest_ip)
    then none
    else some (record {
      proto = get_or iph 9 0;
      src = net_get_be32 iph 12;
      payload = take (iplen - ihl) (drop ihl iph);
    })

unfoldable pub ip_recv : List ℕ → Option Packet
ip_recv frame =
    if ltb (length frame) 34
    then none
    else if not (get_or frame 12 0 == 8) || not (get_or frame 13 0 == 0)
    then none
    else header_recv (drop 14 frame) (length frame)

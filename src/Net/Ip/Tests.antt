-- ===== src/Net/Ip/Tests.antt =====
-- Checksums and frames at concrete bytes.
use octans.Prelude.{ℕ, ◌+◌, ◌-◌, ◌/◌, ◌%◌, ◌≡◌, ◌≢◌, refl, List, [], ◌∷◌, some, arith, pos}
use octans.Net.Ip.{net_cksum, ip_frame, ip_recv, ip_send, Link, guest_ip, gateway_ip}
use octans.Net.Ip.Checksum.{word_sum, complement, net_cksum_exact, net_cksum_verifies}
use octans.Net.Ip.Frame.{ip_recv-ip_frame, ip_send_received}

cksum_runs : net_cksum (1 ∷ 2 ∷ 255 ∷ 255 ∷ []) 0 ≡ 65535 - 513
unfolding net_cksum
cksum_runs = refl

net_cksum_exact_example :
    (net_cksum (1 ∷ 2 ∷ 255 ∷ 255 ∷ []) 9 ≡ complement (9 + word_sum (1 ∷ 2 ∷ 255 ∷ 255 ∷ [])))
    × (net_cksum (1 ∷ 2 ∷ 255 ∷ 255 ∷ 7 ∷ []) 9
        ≢ complement (9 + word_sum (1 ∷ 2 ∷ 255 ∷ 255 ∷ 7 ∷ [])))
net_cksum_exact_example =
    net_cksum_exact 2 (1 ∷ 2 ∷ 255 ∷ 255 ∷ []) 7 9 refl (omega arith) (omega arith) (omega arith)

net_cksum_verifies_example :
    let csum = net_cksum (69 ∷ 0 ∷ 0 ∷ 0 ∷ 10 ∷ 0 ∷ 2 ∷ 15 ∷ []) 0 in
    net_cksum (69 ∷ 0 ∷ csum % 256 ∷ csum / 256 ∷ 10 ∷ 0 ∷ 2 ∷ 15 ∷ []) 0 ≡ 0
net_cksum_verifies_example =
    net_cksum_verifies 1 (69 ∷ 0 ∷ []) (10 ∷ 0 ∷ 2 ∷ 15 ∷ []) refl (omega arith)

abbrev mac : List ℕ
mac = 82 ∷ 84 ∷ 0 ∷ 18 ∷ 52 ∷ 86 ∷ []

ip_recv-ip_frame_example :
    ip_recv (ip_frame mac mac 7 6 gateway_ip guest_ip (1 ∷ 2 ∷ 3 ∷ []))
    ≡ some (record { proto = 6; src = gateway_ip; payload = 1 ∷ 2 ∷ 3 ∷ [] })
ip_recv-ip_frame_example =
    ip_recv-ip_frame mac mac 7 6 gateway_ip (1 ∷ 2 ∷ 3 ∷ []) refl refl (omega arith) (omega arith)
      (omega arith)

-- A card that keeps the frames it is given.
keeping : Link (List (List ℕ))
keeping = record {
  arp_resolve = λ ip w. (w, some mac);
  ether_get_mac = λ w. mac;
  ether_send = λ frame w. (frame ∷ w, pos 0);
}

ip_send_received_example :
    (frame : List ℕ) × (ip_send keeping guest_ip 6 (1 ∷ 2 ∷ []) (7, []) ≡ ((8, frame ∷ []), pos 0))
    × (ip_recv frame ≡ some (record { proto = 6; src = guest_ip; payload = 1 ∷ 2 ∷ [] }))
unfolding keeping
ip_send_received_example =
    ip_send_received keeping mac (1 ∷ 2 ∷ []) 6 7 [] [] refl refl refl (omega arith) (omega arith)

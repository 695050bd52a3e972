-- ===== src/Net/Ip/Checksum.antt =====
-- The checksum of src/net/ip.c as one's-complement arithmetic.
use octans.Prelude.{
  ℕ, zero, suc, ◌+◌, ◌-◌, ◌*◌, ◌/◌, ◌%◌, ◌^◌, ◌<◌, ◌≤◌, ◌≡◌, ◌≢◌, sym, refl, ap, ◌∙◌, List, [], ◌∷◌,
  ◌++◌, ◌==◌, if◌then◌else◌, arith, add32, length,
}
use octans.Net.Ip.{sum_words, fold_carry, net_cksum}

-- The sum of the 16-bit words of RFC 1071, low byte first, an odd last byte with 0 behind it.
abbrev pub word_sum : List ℕ → ℕ
word_sum [] = 0
word_sum (a ∷ []) = a
word_sum (a ∷ b ∷ bs) = a + b * 256 + word_sum bs

-- The same with an odd last byte as the high one, as `net_cksum` takes it.
abbrev pub shifted_sum : List ℕ → ℕ
shifted_sum [] = 0
shifted_sum (a ∷ []) = a * 256
shifted_sum (a ∷ b ∷ bs) = a + b * 256 + shifted_sum bs

pub sum_words_lem :
    (bs : List ℕ) (sum : ℕ)
    → sum + shifted_sum bs < 2 ^ 32
    → sum_words bs sum ≡ sum + shifted_sum bs
unfolding sum_words
sum_words_lem [] sum h = omega arith
sum_words_lem (a ∷ []) sum h = omega arith
sum_words_lem (a ∷ b ∷ bs) sum h =
    omega (arith, sum_words_lem bs (add32 sum (a + b * 256)) (omega (arith, h)))

-- Two rounds fold 32 bits into 16: the number of 16 bits that is the same modulo 65535, and 0 only
-- for 0.
pub fold_carry_lem :
    (sum : ℕ) → sum < 2 ^ 32 → fold_carry 2 sum ≡ (if sum == 0 then 0 else (sum - 1) % 65535 + 1)
unfolding fold_carry
fold_carry_lem sum h = ground arith

-- 65535 less the one's-complement sum of 16-bit words that add up to `sum`.
abbrev pub complement : ℕ → ℕ
complement sum = if sum == 0 then 65535 else 65534 - (sum - 1) % 65535

net_cksum_lem :
    (bytes : List ℕ) (start : ℕ)
    → start + shifted_sum bytes < 2 ^ 32
    → net_cksum bytes start ≡ complement (start + shifted_sum bytes)
unfolding net_cksum
net_cksum_lem bytes start h =
    ground (arith, sum_words_lem bytes start h, fold_carry_lem (start + shifted_sum bytes) h)

complement-le : (sum : ℕ) → complement sum ≤ 65535
complement-le sum = ground arith

complement_cancels : (sum : ℕ) → sum + 65535 < 2 ^ 32 → complement (sum + complement sum) ≡ 0
complement_cancels sum h = ground arith

-- Data that stands behind a whole number of words.
pub shifted_sum-append :
    (n : ℕ) (front back : List ℕ)
    → length front ≡ 2 * n
    → shifted_sum (front ++ back) ≡ shifted_sum front + shifted_sum back
shifted_sum-append zero [] back e = omega arith
shifted_sum-append (suc n) [] back e = absurd (omega arith)
shifted_sum-append zero (a ∷ bs) back e = absurd (omega arith)
shifted_sum-append (suc n) (a ∷ []) back e = absurd (omega arith)
shifted_sum-append (suc n) (a ∷ b ∷ bs) back e =
    omega (arith, shifted_sum-append n bs back (omega arith))

-- For a checksum field behind a whole number of words, with words, as the code reads them, that add
-- up to less than 2 ^ 32 - 65535: when the checksum of the data with 0 in the field is stored there, low byte first,
-- the checksum of the whole is 0.
pub net_cksum_verifies :
    (n : ℕ) (front back : List ℕ)
    → length front ≡ 2 * n
    → shifted_sum front + shifted_sum back + 65535 < 2 ^ 32
    → let csum = net_cksum (front ++ (0 ∷ 0 ∷ back)) 0 in
      net_cksum (front ++ (csum % 256 ∷ csum / 256 ∷ back)) 0 ≡ 0
net_cksum_verifies n front back e h =
    let whole = shifted_sum front + shifted_sum back in
    let blank : 0 + shifted_sum (front ++ (0 ∷ 0 ∷ back)) ≡ whole =
      omega (arith, shifted_sum-append n front (0 ∷ 0 ∷ back) e) in
    let c = net_cksum (front ++ (0 ∷ 0 ∷ back)) 0 in
    let made : c ≡ complement whole =
      rw blank at (net_cksum_lem (front ++ (0 ∷ 0 ∷ back)) 0 (omega (arith, blank))) in
    let small = complement-le whole in
    let filled : 0 + shifted_sum (front ++ (c % 256 ∷ c / 256 ∷ back)) ≡ whole + c =
      omega (arith, shifted_sum-append n front (c % 256 ∷ c / 256 ∷ back) e) in
    let read =
      net_cksum_lem (front ++ (c % 256 ∷ c / 256 ∷ back)) 0 (omega (arith, filled, made, small)) in
    read ∙ ap complement (filled ∙ ap (λ k. whole + k) made) ∙ complement_cancels whole h

-- The two sums of whole words, and with one byte more.
sums_even : (n : ℕ) (words : List ℕ) → length words ≡ 2 * n → shifted_sum words ≡ word_sum words
sums_even zero [] e = refl
sums_even (suc n) [] e = refl
sums_even zero (a ∷ bs) e = absurd (omega arith)
sums_even (suc n) (a ∷ []) e = absurd (omega arith)
sums_even (suc n) (a ∷ b ∷ bs) e = omega (arith, sums_even n bs (omega arith))

word_sum-last :
    (n : ℕ) (words : List ℕ) (last : ℕ)
    → length words ≡ 2 * n
    → word_sum (words ++ last ∷ []) ≡ word_sum words + last
word_sum-last zero [] last e = omega arith
word_sum-last (suc n) [] last e = absurd (omega arith)
word_sum-last zero (a ∷ bs) last e = absurd (omega arith)
word_sum-last (suc n) (a ∷ []) last e = absurd (omega arith)
word_sum-last (suc n) (a ∷ b ∷ bs) last e = omega (arith, word_sum-last n bs last (omega arith))

complement_apart :
    (sum last : ℕ) → 0 < last → last < 256 → complement (sum + last * 256) ≢ complement (sum + last)
complement_apart sum last low high e = grind (arith, e)

-- For a whole number of words that add up, with the start and 65280 more, to less than 2 ^ 32: the
-- checksum is 65535 less the one's-complement sum of RFC 1071, which is 0 for a sum of 0 and from 1
-- to 65535 otherwise. With one byte more that is not 0, the checksum is never the one of RFC 1071.
pub net_cksum_exact :
    (n : ℕ) (words : List ℕ) (last start : ℕ)
    → length words ≡ 2 * n
    → start + word_sum words + 65280 < 2 ^ 32
    → 0 < last
    → last < 256
    → (net_cksum words start ≡ complement (start + word_sum words))
      × (net_cksum (words ++ last ∷ []) start ≢ complement (start + word_sum (words ++ last ∷ [])))
net_cksum_exact n words last start e h low high =
    let same = sums_even n words e in
    let odd : start + shifted_sum (words ++ last ∷ []) ≡ start + word_sum words + last * 256 =
      omega (arith, shifted_sum-append n words (last ∷ []) e, same) in
    let padded : start + word_sum (words ++ last ∷ []) ≡ start + word_sum words + last =
      omega (arith, word_sum-last n words last e) in
    (
      net_cksum_lem words start (omega (arith, same)) ∙ ap (λ k. complement (start + k)) same,
      λ equal. complement_apart (start + word_sum words) last low high (
          sym (ap complement odd)
          ∙ sym (net_cksum_lem (words ++ last ∷ []) start (omega (arith, odd)))
          ∙ equal
          ∙ ap complement padded),
    )

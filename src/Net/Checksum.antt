-- ===== src/Net/Checksum.antt =====
-- `net_checksum` of src/netstack.c, the ones' complement sum of 16-bit words.
use lite_bsd.Net.Bytes.{put16}
use lite_bsd.Prelude.{
  ℕ, zero, suc, ◌+◌, ◌-◌, ◌*◌, ◌/◌, ◌%◌, ◌^◌, ◌<◌, ◌≤◌, ◌≡◌, refl, sym, ap, ◌∙◌, inl, inr, List, [],
  ◌∷◌, ◌++◌, ◌==◌, if◌then◌else◌, Bool-cases, arith, length, length-append, add32,
}

-- The loop over the words, and the odd byte at the end.
unfoldable pub word_sum : ℕ → List ℕ → ℕ
word_sum sum [] = sum
word_sum sum (a ∷ []) = add32 sum a
word_sum sum (a ∷ b ∷ buf) = word_sum (add32 sum (a + 256 * b)) buf

-- `while (sum >> 16) sum = (sum & 0xFFFF) + (sum >> 16);` with as many rounds as given.
unfoldable pub fold_carry : ℕ → ℕ → ℕ
fold_carry zero sum = sum
fold_carry (suc rounds) sum =
    let rest = fold_carry rounds (sum % 65536 + sum / 65536) in
    if sum / 65536 == 0 then sum else rest

-- `(uint16_t)(~sum)`; three rounds are enough.
unfoldable pub net_checksum : List ℕ → ℕ
net_checksum buf = 65535 - fold_carry 3 (word_sum 0 buf) % 65536

-- The sum as a number without a bound.
abbrev pub total : List ℕ → ℕ
total [] = 0
total (a ∷ []) = a
total (a ∷ b ∷ buf) = a + 256 * b + total buf

abbrev pub AllBytes : List ℕ → Type 0
AllBytes [] = Unit
AllBytes (b ∷ bs) = (b < 256) × AllBytes bs

total-lt : (buf : List ℕ) → AllBytes buf → total buf ≤ 65535 * length buf
total-lt [] h = omega arith
total-lt (a ∷ []) h = omega (arith, h.0)
total-lt (a ∷ b ∷ buf) h = omega (arith, h.0, h.1.0, total-lt buf h.1.1)

-- The 32-bit sum of the words of a packet never wraps round.
pub word_sum-total :
    (sum : ℕ) (buf : List ℕ)
    → AllBytes buf
    → sum + 65535 * length buf < 2 ^ 32
    → word_sum sum buf ≡ sum + total buf
unfolding word_sum
word_sum-total sum [] h fits = omega arith
word_sum-total sum (a ∷ []) h fits = omega (arith, h.0)
word_sum-total sum (a ∷ b ∷ buf) h fits =
    let small : add32 sum (a + 256 * b) ≡ sum + (a + 256 * b) = omega (arith, h.0, h.1.0) in
    word_sum-total (add32 sum (a + 256 * b)) buf h.1.1 (omega (arith, h.0, h.1.0)) ∙ omega arith

-- The number below 65536 that stands for `n` in ones' complement arithmetic.
unfoldable pub residue : ℕ → ℕ
residue n = if n == 0 then 0 else (n - 1) % 65535 + 1

-- One round keeps the residue.
residue-step : (n : ℕ) → residue (n % 65536 + n / 65536) ≡ residue n
unfolding residue
residue-step n = ground arith

residue_small : (n : ℕ) → n < 65536 → residue n ≡ n
unfolding residue
residue_small n h = ground arith

fold_carry-keeps : (rounds n : ℕ) → residue (fold_carry rounds n) ≡ residue n
unfolding fold_carry
fold_carry-keeps zero n = refl
fold_carry-keeps (suc rounds) n = elim (Bool-cases (n / 65536 == 0)) [
  | inl done ↦ rw done refl
  | inr more ↦ rw more (fold_carry-keeps rounds (n % 65536 + n / 65536) ∙ residue-step n)
]

fold_carry_next :
    (rounds n : ℕ)
    → fold_carry rounds (n % 65536 + n / 65536) < 65536
    → fold_carry (suc rounds) n < 65536
unfolding fold_carry
fold_carry_next rounds n h = elim (Bool-cases (n / 65536 == 0)) [
  | inl done ↦ rw done (ground arith)
  | inr more ↦ rw more h
]

no_more : (m : ℕ) → m < 65536 → fold_carry 0 m < 65536
unfolding fold_carry
no_more m h = h

-- Three rounds bring every 32-bit sum below 65536.
pub fold_carry-lt : (n : ℕ) → n < 2 ^ 32 → fold_carry 3 n < 65536
fold_carry-lt n h =
    let n1 = n % 65536 + n / 65536 in
    let n2 = n1 % 65536 + n1 / 65536 in
    fold_carry_next 2 n (
      fold_carry_next 1 n1 (fold_carry_next 0 n2 (no_more (n2 % 65536 + n2 / 65536) (omega arith))))

fold_carry-residue : (n : ℕ) → n < 2 ^ 32 → fold_carry 3 n ≡ residue n
fold_carry-residue n h =
    sym (residue_small (fold_carry 3 n) (fold_carry-lt n h)) ∙ fold_carry-keeps 3 n

-- The checksum of up to 65535 bytes is what is left to 65535 of their sum in ones' complement: the
-- 32-bit sum never wraps round, and three rounds fold its carries.
pub net_checksum-residue :
    (buf : List ℕ)
    → AllBytes buf
    → length buf < 65536
    → net_checksum buf ≡ 65535 - residue (total buf)
unfolding net_checksum
net_checksum-residue buf h l =
    let sum = word_sum 0 buf in
    let e : sum ≡ total buf = omega (arith, word_sum-total 0 buf h (omega arith)) in
    let small : sum < 2 ^ 32 = omega (arith, e, total-lt buf h) in
    ap (λ n. 65535 - n) (low (fold_carry 3 sum) (fold_carry-lt sum small))
    ∙ ap (λ n. 65535 - n) (fold_carry-residue sum small ∙ ap residue e)
  where
    low : (n : ℕ) → n < 65536 → n % 65536 ≡ n
    low n h = omega arith

total-append : (l m : List ℕ) → length l % 2 ≡ 0 → total (l ++ m) ≡ total l + total m
total-append [] m h = omega arith
total-append (a ∷ []) m h = absurd (omega arith)
total-append (a ∷ b ∷ l) m h = omega (arith, total-append l m (omega arith))

residue_filled : (n : ℕ) → residue (n + (65535 - residue n)) ≡ 65535
unfolding residue
residue_filled n = ground arith

residue-le : (n : ℕ) → residue n ≤ 65535
unfolding residue
residue-le n = ground arith

-- A packet with its checksum, at an even place, in a field that was 0 while it was computed.
abbrev pub sealed : List ℕ → List ℕ → List ℕ
sealed before after = before ++ (put16 (net_checksum (before ++ (0 ∷ 0 ∷ after))) ++ after)

total_field :
    (before after : List ℕ) (c : ℕ)
    → length before % 2 ≡ 0
    → c < 65536
    → total (before ++ (put16 c ++ after)) ≡ total (before ++ (0 ∷ 0 ∷ after)) + c
total_field before after c even h =
    total-append before (put16 c ++ after) even
    ∙ omega (arith, total-append before (0 ∷ 0 ∷ after) even)

AllBytes-field :
    (before after : List ℕ) (c : ℕ)
    → AllBytes (before ++ (0 ∷ 0 ∷ after))
    → AllBytes (before ++ (put16 c ++ after))
AllBytes-field [] after c h = (omega arith, (omega arith, h.1.1))
AllBytes-field (b ∷ before) after c h = (h.0, AllBytes-field before after c h.1)

-- The sum over a packet that was sealed is all ones: whoever computes the checksum over the whole
-- packet gets 0.
pub net_checksum-sealed :
    (before after : List ℕ)
    → AllBytes (before ++ (0 ∷ 0 ∷ after))
    → length before % 2 ≡ 0
    → length before + 2 + length after < 65536
    → net_checksum (sealed before after) ≡ 0
net_checksum-sealed before after h even fits =
    let blank = before ++ (0 ∷ 0 ∷ after) in
    let c = net_checksum blank in
    let e : c ≡ 65535 - residue (total blank) =
      net_checksum-residue blank h (omega (arith, length-append before (0 ∷ 0 ∷ after))) in
    let small : c < 65536 = omega (arith, e) in
    let full : total (sealed before after) ≡ total blank + (65535 - residue (total blank)) =
      total_field before after c even small ∙ ap (λ n. total blank + n) e in
    net_checksum-residue (sealed before after) (AllBytes-field before after c h)
      (omega (arith, length-append before (put16 c ++ after)))
    ∙ ap (λ n. 65535 - residue n) full
    ∙ ap (λ n. 65535 - n) (residue_filled (total blank))

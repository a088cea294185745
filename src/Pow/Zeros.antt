-- ===== src/Pow/Zeros.antt =====
-- The count of leading zero bits, against the number that a hash stands for.
use native.Mathlib.Decide.{dec_lt}
use native.Mathlib.Nat.{pow-suc, pow-zero, add-zero, add-suc, add_assoc, pow-le-pow_right}
use kimo.Prelude.{
  ℕ, zero, suc, ◌+◌, ◌-◌, ◌*◌, ◌^◌, ◌≤◌, ◌<◌, ◌≡◌, refl, ◌↔◌, Bool, true, false, ◌&&◌, ◌||◌, List,
  [], ◌∷◌, arith, All, length, eqb, leb, ltb, Bool-cases, inl, inr, if◌then◌else◌,
}
use kimo.Pow.{Scan, returned, ran_out, scan_bits, count_from, count_leading_zero_bits}

-- The number that bytes stand for, the first byte the most significant.
pub value : List ℕ → ℕ
value [] = 0
value (b ∷ bs) = b * 2 ^ (8 * length bs) + value bs

abbrev shift : ℕ → Scan → Scan
shift c (returned n) = returned (c + n)
shift c (ran_out n) = ran_out (c + n)

scan_bits-shift : (i b c d : ℕ) → scan_bits i b (c + d) ≡ shift c (scan_bits i b d)
unfolding scan_bits
scan_bits-shift zero b c d = refl
scan_bits-shift (suc i) b c d =
    let e : c + d + 1 ≡ c + (d + 1) = omega arith in
    rw e (ground (arith, scan_bits-shift i b c (d + 1)))

abbrev after : (ℕ → ℕ) → Scan → ℕ
after f (returned n) = n
after f (ran_out n) = f n

after-shift :
    (f : ℕ → ℕ) (c : ℕ) (r : Scan)
    → ((n : ℕ) → f (c + n) ≡ c + f n)
    → after f (shift c r) ≡ c + after f r
after-shift f c (returned n) h = refl
after-shift f c (ran_out n) h = h n

-- One byte of the count.
count_from-cons :
    (c b : ℕ) (bs : List ℕ)
    → count_from c (b ∷ bs)
      ≡ (if eqb b 0 then count_from (c + 8) bs else after (λ n. count_from n bs) (scan_bits 8 b c))
count_from-cons c b bs = unfold count_from in ground arith

count_from-shift : (c d : ℕ) (h : List ℕ) → count_from (c + d) h ≡ c + count_from d h
count_from-shift c d [] = unfold count_from in refl
count_from-shift c d (b ∷ bs) = elim (Bool-cases (eqb b 0)) [
  | inl z ↦ rw (count_from-cons, z, count_from-cons, z, add_assoc) (count_from-shift c (d + 8) bs)
  | inr nz ↦
      rw (count_from-cons, nz, count_from-cons, nz, scan_bits-shift 8 b c d)
        (after-shift (λ n. count_from n bs) c (scan_bits 8 b d) (λ n. count_from-shift c n bs))
]

every : (ℕ → Bool) → ℕ → Bool
every test zero = true
every test (suc m) = every test m && test m

every-below : (test : ℕ → Bool) (m byte : ℕ) → byte < m → every test m ≡ true → test byte ≡ true
unfolding every
every-below test zero byte few e = absurd (omega arith)
every-below test (suc m) byte few e = ground (arith, every-below test m byte)

-- The scan of a byte that is not 0 ends at its highest bit that is set.
abbrev is_highest : ℕ → Scan → Bool
is_highest b (returned k) = ltb k 8 && leb (2 ^ (7 - k)) b && ltb b (2 ^ (8 - k))
is_highest b (ran_out k) = false

bytes : every (λ b. eqb b 0 || is_highest b (scan_bits 8 b 0)) 256 ≡ true
unfolding every scan_bits
bytes = refl

abbrev IsHighest : ℕ → Scan → Type 0
IsHighest b r = (k : ℕ) × (r ≡ returned k) × (k < 8) × (2 ^ (7 - k) ≤ b) × (b < 2 ^ (8 - k))

highest : (b : ℕ) (r : Scan) → is_highest b r ≡ true → IsHighest b r
highest b (returned k) h = (k, refl, ground arith, ground arith, ground arith)
highest b (ran_out k) h = cc

scan_bits-IsHighest : (b : ℕ) → b < 256 → 0 < b → IsHighest b (scan_bits 8 b 0)
scan_bits-IsHighest b lt pos_ = highest b (scan_bits 8 b 0) (
    ground
      (arith, every-below (λ (b : ℕ). eqb b 0 || is_highest b (scan_bits 8 b 0)) 256 b lt bytes))

pow-add : (a b : ℕ) → 2 ^ (a + b) ≡ 2 ^ a * 2 ^ b
pow-add a zero = rw (add-zero, pow-zero) (omega arith)
pow-add a (suc b) = rw (add-suc, pow-suc, pow-suc, pow-add a b) (omega arith)

value-lt : (bs : List ℕ) → All (λ b. b < 256) bs → value bs < 2 ^ (8 * length bs)
unfolding value
value-lt [] h = omega arith
value-lt (b ∷ bs) (lt, h) =
    let step : 8 * suc (length bs) ≡ 8 + 8 * length bs = omega arith in
    rw (step, pow-add 8 (8 * length bs)) (grind (arith, value-lt bs h))

module _ (b v n k d : ℕ) where
  below : b < 2 ^ (8 - k) → v < 2 ^ n → k < 8 → d ≤ k → b * 2 ^ n + v < 2 ^ (8 + n - d)
  below hi small k_lt few =
      let e = pow-add (8 - k) n in
      let le =
        pow-le-pow_right {n = 2} (omega arith) {i = 8 - k + n} {j = 8 + n - d} (omega arith) in
      grind arith

  above : 2 ^ (7 - k) ≤ b → k < 8 → k < d → d ≤ 8 + n → 2 ^ (8 + n - d) ≤ b * 2 ^ n + v
  above lo k_lt many fits =
      let e = pow-add (7 - k) n in
      let le =
        pow-le-pow_right {n = 2} (omega arith) {i = 8 + n - d} {j = 7 - k + n} (omega arith) in
      grind arith

  byte_iff :
      2 ^ (7 - k) ≤ b
      → b < 2 ^ (8 - k)
      → v < 2 ^ n
      → k < 8
      → d ≤ 8 + n
      → (d ≤ k) ↔ (b * 2 ^ n + v < 2 ^ (8 + n - d))
  byte_iff lo hi small k_lt fits = (
    λ few. below hi small k_lt few,
    λ lt. elim (dec_lt k d) [
      | yes many ↦ absurd (let up = above lo k_lt many fits in omega arith)
      | no n' ↦ omega arith
    ],
  )

zero_iff :
    (v n c d : ℕ)
    → v < 2 ^ n
    → (d - 8 ≤ c ↔ v < 2 ^ (n - (d - 8)))
    → d ≤ 8 + n
    → (d ≤ 8 + c) ↔ (v < 2 ^ (8 + n - d))
zero_iff v n c d small ih fits = elim (dec_lt 8 d) [
  | yes many ↦
      let e : 8 + n - d ≡ n - (d - 8) = omega arith in
      rw e (λ h. ih.0 (omega arith), λ h. let k = ih.1 h in omega arith)
  | no few ↦ (
    λ _.
        let le = pow-le-pow_right {n = 2} (omega arith) {i = n} {j = 8 + n - d} (omega arith) in
        omega arith,
    λ _. omega arith,
  )
]

-- The first bytes are zero in `d` bits exactly if the number is small.
count-value_iff :
    (bs : List ℕ) (d : ℕ)
    → All (λ b. b < 256) bs
    → d ≤ 8 * length bs
    → (d ≤ count_from 0 bs) ↔ (value bs < 2 ^ (8 * length bs - d))
count-value_iff [] d h fits =
    let e : d ≡ 0 = omega arith in
    rw e (unfold count_from value in (λ _. omega arith, λ _. omega arith))
count-value_iff (b ∷ bs) d (lt, h) fits =
    let size : 8 * suc (length bs) ≡ 8 + 8 * length bs = omega arith in
    elim (Bool-cases (eqb b 0)) [
      | inl z ↦
          let b_zero : b ≡ 0 = ground arith in
          let total : value (b ∷ bs) ≡ value bs = unfold value in rw b_zero (omega arith) in
          rw (size, total, count_from-cons, z, count_from-shift 8 0 bs)
            (zero_iff (value bs) (8 * length bs) (count_from 0 bs) d (value-lt bs h)
              (count-value_iff bs (d - 8) h (omega arith)) (omega arith))
      | inr nz ↦
          let (k, found, k_lt, lo, hi) = scan_bits-IsHighest b lt (ground arith) in
          rw (size, count_from-cons, nz, found)
            (unfold value in
              byte_iff b (value bs) (8 * length bs) k d lo hi (value-lt bs h) k_lt (omega arith))
    ]

-- A hash of bytes has at least `d` leading zero bits, up to all that it has, exactly if the number
-- that it stands for, the first byte the most significant, is below 2 to the bits that are left.
pub count_leading_zero_bits-value_iff :
    (hash : List ℕ) (d : ℕ)
    → All (λ b. b < 256) hash
    → d ≤ 8 * length hash
    → (d ≤ count_leading_zero_bits hash) ↔ (value hash < 2 ^ (8 * length hash - d))
unfolding count_leading_zero_bits
count_leading_zero_bits-value_iff hash d h fits = count-value_iff hash d h fits

-- ===== src/Pow/Digits.antt =====
-- What a proof of work hashes: the texts that internal/api/pow.go makes of bytes and of numbers.
use Prim.Native.String.{count}
use Prim.Native.Char.{Char, code}
use text.Mathlib.TextLemmas.{
  append_cancel_left, append_inj, nil-append, cons-append, length-append, length-cons, length-nil,
}
use mathlib.Core.Path.{ap₂}
use kimo.Prelude.{
  ℕ, zero, suc, ◌+◌, ◌-◌, ◌*◌, ◌/◌, ◌%◌, ◌<◌, String, ◌<>◌, ◌≡◌, refl, sym, ap, ◌∙◌, subst, inl,
  inr, List, [], ◌∷◌, arith, All, length, ltb, Bool-cases, if◌then◌else◌,
}
use kimo.Prelude.Int.{ℤ}
use kimo.Types.{Time}
use kimo.Pow.{digit_at, digits, hex, decimal_from, decimal, preimage, generate_pow_puzzle}

digit_value : Char → ℕ
digit_value c = if ltb (code c) 58 then code c - 48 else code c - 87

-- One character, which stands for a number.
IsDigit : ℕ → String → Type 0
IsDigit n String.[] = ⊥
IsDigit n (String.◌∷◌ c s) = (digit_value c ≡ n) × (s ≡ String.[])

abbrev Counts : ℕ → List String → Type 0
Counts n [] = Unit
Counts n (d ∷ ds) = IsDigit n d × Counts (suc n) ds

digits-Counts : Counts 0 digits
unfolding IsDigit digit_value
digits-Counts = (
  (refl, refl),
  (
    (refl, refl),
    (
      (refl, refl),
      (
        (refl, refl),
        (
          (refl, refl),
          (
            (refl, refl),
            (
              (refl, refl),
              (
                (refl, refl),
                (
                  (refl, refl),
                  (
                    (refl, refl),
                    (
                      (refl, refl),
                      (
                        (refl, refl),
                        ((refl, refl), ((refl, refl), ((refl, refl), ((refl, refl), tt)))),
                      ),
                    ),
                  ),
                ),
              ),
            ),
          ),
        ),
      ),
    ),
  ),
)

digit_at-IsDigit :
    (n k : ℕ) (ds : List String) → Counts n ds → k < length ds → IsDigit (k + n) (digit_at ds k)
unfolding digit_at
digit_at-IsDigit n k [] h small = absurd (omega arith)
digit_at-IsDigit n zero (d ∷ ds) h small = subst (λ m. IsDigit m d) (omega arith) h.0
digit_at-IsDigit n (suc k) (d ∷ ds) h small =
    subst (λ m. IsDigit m (digit_at ds k)) (omega arith)
      (digit_at-IsDigit (suc n) k ds h.1 (omega arith))

digits-IsDigit : (n : ℕ) → n < 16 → IsDigit n (digit_at digits n)
digits-IsDigit n small =
    subst (λ m. IsDigit m (digit_at digits n)) (omega arith)
      (digit_at-IsDigit 0 n digits digits-Counts small)

-- Digits read as a number in base ten, after the digits that `before` stands for.
pub read_from : ℕ → String → ℕ
unfolding digit_value
read_from before String.[] = before
read_from before (String.◌∷◌ c s) = read_from (before * 10 + digit_value c) s

read_from-append : (n : ℕ) (s t : String) → read_from n (s <> t) ≡ read_from (read_from n s) t
unfolding read_from
read_from-append n String.[] t = ap (read_from n) (nil-append t)
read_from-append n (String.◌∷◌ c s) t =
    ap (read_from n) (cons-append c s t) ∙ read_from-append (n * 10 + digit_value c) s t

read_from-IsDigit : (n d : ℕ) (s : String) → IsDigit d s → read_from n s ≡ n * 10 + d
unfolding read_from IsDigit
read_from-IsDigit n d String.[] h = absurd h
read_from-IsDigit n d (String.◌∷◌ c s) (e, none_left) = rw none_left (rw (read_from, e) refl)

-- The loop over the digits ends: with any fuel above the number it has all digits of it.
decimal_from-read : (f n : ℕ) → n < f → read_from 0 (decimal_from f n) ≡ n
unfolding decimal_from
decimal_from-read zero n h = absurd (omega arith)
decimal_from-read (suc f) n h = elim (Bool-cases (ltb n 10)) [
  | inl small ↦
      rw small
        (read_from-IsDigit 0 n (digit_at digits n) (digits-IsDigit n (ground arith)) ∙ omega arith)
  | inr large ↦ rw large (
      read_from-append 0 (decimal_from f (n / 10)) (digit_at digits (n % 10))
      ∙ ap (λ m. read_from m (digit_at digits (n % 10)))
          (decimal_from-read f (n / 10) (ground arith))
      ∙ read_from-IsDigit (n / 10) (n % 10) _ (digits-IsDigit (n % 10) (omega arith))
      ∙ omega arith)
]

pub decimal-read : (n : ℕ) → read_from 0 (decimal n) ≡ n
unfolding decimal
decimal-read n = decimal_from-read (suc n) n (omega arith)

IsDigit-one : (n : ℕ) (s : String) → IsDigit n s → count s ≡ 1
unfolding IsDigit
IsDigit-one n String.[] h = absurd h
IsDigit-one n (String.◌∷◌ c s) (e, none_left) =
    rw none_left (length-cons c String.[] ∙ ap suc length-nil)

IsDigit-unique : (m n : ℕ) (s : String) → IsDigit m s → IsDigit n s → m ≡ n
unfolding IsDigit
IsDigit-unique m n String.[] h k = absurd h
IsDigit-unique m n (String.◌∷◌ c s) h k = sym h.0 ∙ k.0

digit_at-injective : (m n : ℕ) → m < 16 → n < 16 → digit_at digits m ≡ digit_at digits n → m ≡ n
digit_at-injective m n h k e =
    IsDigit-unique m n (digit_at digits n) (subst (IsDigit m) e (digits-IsDigit m h))
      (digits-IsDigit n k)

count-digit_at : (n : ℕ) → n < 16 → count (digit_at digits n) ≡ 1
count-digit_at n h = IsDigit-one n _ (digits-IsDigit n h)

abbrev pub IsByte : ℕ → Type 0
IsByte b = b < 256

pub hex-count : (bs : List ℕ) → All IsByte bs → count (hex bs) ≡ 2 * length bs
unfolding hex
hex-count [] h = length-nil
hex-count (b ∷ bs) (small, h) =
    length-append (digit_at digits (b / 16)) (digit_at digits (b % 16) <> hex bs)
    ∙ ap₂ ◌+◌ (count-digit_at (b / 16) (omega arith)) (
        length-append (digit_at digits (b % 16)) (hex bs)
        ∙ ap₂ ◌+◌ (count-digit_at (b % 16) (omega arith)) (hex-count bs h))
    ∙ omega arith

pub hex-injective :
    (bs cs : List ℕ)
    → All IsByte bs
    → All IsByte cs
    → length bs ≡ length cs
    → hex bs ≡ hex cs
    → bs ≡ cs
unfolding hex
hex-injective [] [] h k same_length e = refl
hex-injective [] (c ∷ cs) h k same_length e = absurd (omega arith)
hex-injective (b ∷ bs) [] h k same_length e = absurd (omega arith)
hex-injective (b ∷ bs) (c ∷ cs) (small, h) (small', k) same_length e =
    let (high, rest) =
      append_inj {s₁ = digit_at digits (b / 16)} {s₂ = digit_at digits (c / 16)} e
        (count-digit_at (b / 16) (omega arith) ∙ sym (count-digit_at (c / 16) (omega arith))) in
    let (low, others) =
      append_inj {s₁ = digit_at digits (b % 16)} {s₂ = digit_at digits (c % 16)} rest
        (count-digit_at (b % 16) (omega arith) ∙ sym (count-digit_at (c % 16) (omega arith))) in
    let same_high = digit_at-injective (b / 16) (c / 16) (omega arith) (omega arith) high in
    let same_low = digit_at-injective (b % 16) (c % 16) (omega arith) (omega arith) low in
    ap₂ (λ (x : ℕ) (xs : List ℕ). x ∷ xs) (omega arith)
      (hex-injective bs cs h k (omega arith) others)

-- No two attempts hash the same text: what is hashed for the puzzle of some bytes and for a nonce
-- tells the bytes and the nonce, of puzzles with one number of random bytes.
pub preimage-injective :
    (bs cs : List ℕ) (m n : ℕ) (difficulty difficulty' : ℤ) (now now' : Time)
    → All IsByte bs
    → All IsByte cs
    → length bs ≡ length cs
    → preimage (generate_pow_puzzle difficulty bs now).challenge m
      ≡ preimage (generate_pow_puzzle difficulty' cs now').challenge n
    → (bs ≡ cs) × (m ≡ n)
unfolding generate_pow_puzzle preimage
preimage-injective bs cs m n difficulty difficulty' now now' h k same_length e =
    let (challenge, rest) =
      append_inj {s₁ = hex bs} {s₂ = hex cs} e
        (hex-count bs h ∙ ap (λ t. 2 * t) same_length ∙ sym (hex-count cs k)) in
    let number = append_cancel_left ":" (decimal m) (decimal n) rest in
    (
      hex-injective bs cs h k same_length challenge,
      sym (decimal-read m) ∙ ap (read_from 0) number ∙ decimal-read n,
    )

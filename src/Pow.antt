-- ===== src/Pow.antt =====
-- The proof of work of the REST API: internal/api/pow.go.
pub mod Zeros
pub mod Solve
pub mod Digits
use Prim.Native.Nat.{bit_and}
use kimo.Prelude.{
  ℕ, zero, suc, ◌+◌, ◌*◌, ◌/◌, ◌%◌, ◌^◌, String, ◌<>◌, Bool, true, false, Option, none, some, List,
  [], ◌∷◌, eqb, ltb, if◌then◌else◌,
}
use kimo.Prelude.Int.{ℤ, pos, ◌+ℤ◌, leb_ℤ}
use kimo.Types.{Time}
use kimo.Instance.Reconcile.{seconds}

pub record PowPuzzle : Type 0 where
  pub challenge : String
  pub difficulty : ℤ
  pub expires_at : Time

digit_at : List String → ℕ → String
digit_at [] n = ""
digit_at (d ∷ ds) zero = d
digit_at (d ∷ ds) (suc n) = digit_at ds n

abbrev digits : List String
digits =
    "0" ∷ "1" ∷ "2" ∷ "3" ∷ "4" ∷ "5" ∷ "6" ∷ "7" ∷ "8" ∷ "9" ∷ "a" ∷ "b" ∷ "c" ∷ "d" ∷ "e" ∷ "f"
    ∷ []

-- `hex.EncodeToString`: two digits for each byte.
unfoldable pub hex : List ℕ → String
unfolding digit_at
hex [] = ""
hex (b ∷ bs) = digit_at digits (b / 16) <> digit_at digits (b % 16) <> hex bs

-- `%d`, with fuel: a number has fewer digits than its successor.
decimal_from : ℕ → ℕ → String
unfolding digit_at
decimal_from zero n = ""
decimal_from (suc f) n =
    let front = decimal_from f (n / 10) in
    if ltb n 10 then digit_at digits n else front <> digit_at digits (n % 10)

unfoldable pub decimal : ℕ → String
unfolding decimal_from
decimal n = decimal_from (suc n) n

-- The puzzle of 32 random bytes, made at a time.
unfoldable pub generate_pow_puzzle : ℤ → List ℕ → Time → PowPuzzle
unfolding ◌+ℤ◌
generate_pow_puzzle difficulty random now = record {
  challenge = hex random;
  difficulty = difficulty;
  expires_at = now +ℤ seconds 300;
}

-- The inner loop ends the function at a bit that is set, or runs out of bits.
pub data Scan : Type 0 where
  returned : ℕ → Scan
  ran_out : ℕ → Scan

-- `for i := 7; i >= 0; i--`, at `suc i` for `i`.
unfoldable pub scan_bits : ℕ → ℕ → ℕ → Scan
scan_bits zero b count = ran_out count
scan_bits (suc i) b count =
    let next = scan_bits i b (count + 1) in
    if eqb (bit_and b (2 ^ i)) 0 then next else returned count

unfoldable pub count_from : ℕ → List ℕ → ℕ
count_from count [] = count
count_from count (b ∷ bs) = elim (eqb b 0) [
  | true ↦ count_from (count + 8) bs
  | false ↦ elim (scan_bits 8 b count) [ returned n ↦ n | ran_out n ↦ count_from n bs ]
]

unfoldable pub count_leading_zero_bits : List ℕ → ℕ
count_leading_zero_bits hash = count_from 0 hash

-- `fmt.Sprintf("%s:%d", challenge, nonce)`
unfoldable pub preimage : String → ℕ → String
unfolding decimal
preimage challenge nonce = challenge <> ":" <> decimal nonce

-- SHA-256 is a parameter: a text in, bytes out.
module _ (sha256 : String → List ℕ) where
  unfoldable pub verify_pow : String → ℕ → ℤ → Bool
  unfolding count_leading_zero_bits count_from scan_bits preimage
  verify_pow challenge nonce difficulty =
      leb_ℤ difficulty (pos (count_leading_zero_bits (sha256 (preimage challenge nonce))))

  -- The search for a nonce, `fuel` of them from `nonce` on.
  unfoldable pub solve_from : ℕ → ℕ → String → ℤ → Option ℕ
  solve_from zero nonce challenge difficulty = none
  solve_from (suc fuel) nonce challenge difficulty =
      let rest = solve_from fuel (suc nonce) challenge difficulty in
      if verify_pow challenge nonce difficulty then some nonce else rest

  unfoldable pub solve_pow : String → ℤ → Option ℕ
  solve_pow challenge difficulty = solve_from (2 ^ 30) 0 challenge difficulty

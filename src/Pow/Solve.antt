-- ===== src/Pow/Solve.antt =====
-- The brute-force solver finds the least nonce that solves a puzzle.
use kimo.Prelude.{
  ℕ, zero, suc, ◌+◌, ◌^◌, ◌≤◌, ◌<◌, ◌≡◌, sym, subst, inl, inr, String, true, false, Option, none,
  some, List, arith, Bool-cases,
}
use native.Mathlib.Decide.{dec_lt}
use kimo.Prelude.Int.{ℤ}
use kimo.Pow.{verify_pow, solve_from, solve_pow}

module _ (sha256 : String → List ℕ) (challenge : String) (difficulty : ℤ) where
  -- What a search of `fuel` nonces from `start` on has found.
  abbrev pub Found : ℕ → ℕ → Option ℕ → Type 0
  Found fuel start none =
      (m : ℕ) → start ≤ m → m < start + fuel → verify_pow sha256 challenge m difficulty ≡ false
  Found fuel start (some n) =
      (start ≤ n)
      × (n < start + fuel)
      × (verify_pow sha256 challenge n difficulty ≡ true)
      × ((m : ℕ) → start ≤ m → m < n → verify_pow sha256 challenge m difficulty ≡ false)

  widen :
      (fuel start : ℕ) (r : Option ℕ)
      → verify_pow sha256 challenge start difficulty ≡ false
      → Found fuel (suc start) r
      → Found (suc fuel) start r
  widen fuel start none wrong h = λ m a b. elim (dec_lt start m) [
    | yes later ↦ h m (omega arith) (omega arith)
    | no n ↦
        let e : m ≡ start = omega arith in
        subst (λ k. verify_pow sha256 challenge k difficulty ≡ false) (sym e) wrong
  ]
  widen fuel start (some n) wrong (a, b, right, before) = (
    omega arith,
    omega arith,
    right,
    λ m c d. elim (dec_lt start m) [
      | yes later ↦ before m (omega arith) (omega arith)
      | no n' ↦
          let e : m ≡ start = omega arith in
          subst (λ k. verify_pow sha256 challenge k difficulty ≡ false) (sym e) wrong
    ],
  )

  solve_from-Found :
      (fuel start : ℕ) → Found fuel start (solve_from sha256 fuel start challenge difficulty)
  unfolding solve_from
  solve_from-Found zero start = λ m a b. absurd (omega arith)
  solve_from-Found (suc fuel) start =
      elim (Bool-cases (verify_pow sha256 challenge start difficulty)) [
        | inl right ↦ rw right (omega arith, omega arith, right, λ m a b. absurd (omega arith))
        | inr wrong ↦ rw wrong (
            widen fuel start (solve_from sha256 fuel (suc start) challenge difficulty) wrong
              (solve_from-Found fuel (suc start)))
      ]

-- The solver tries the nonces below 2 ^ 30: what it returns verifies and is the least nonce that
-- does, and if it returns none then no nonce below 2 ^ 30 verifies.
pub solve_pow-Found :
    (sha256 : String → List ℕ) (challenge : String) (difficulty : ℤ)
    → Found sha256 challenge difficulty (2 ^ 30) 0 (solve_pow sha256 challenge difficulty)
unfolding solve_pow
solve_pow-Found sha256 challenge difficulty =
    solve_from-Found sha256 challenge difficulty (2 ^ 30) 0

-- ===== src/Copies/Memory.antt =====
-- Go's memory as far as the copies of api/v1alpha1/zz_generated.deepcopy.go read and write it.
use kimo.Prelude.{ℕ, suc, String, eqb, if◌then◌else◌}

-- What a variable holds. A struct is its fields, one `both` for each but the last; one with no
-- pointer in it is a scalar. A pointer, a slice and a map are an address, or nil; at the address of
-- a slice are its elements and at that of a map its entries, each in front of the rest, and nil at
-- the end.
pub data Value : Type 0 where
  scalar : String → Value
  nil : Value
  ref : ℕ → Value
  both : Value → Value → Value

-- Addresses from `next` on are free.
pub record Memory : Type 0 where
  pub next : ℕ
  pub cells : ℕ → Value

-- `new` and `make`: an address that nothing else has.
abbrev pub reserve : Memory → Memory
reserve m = record m { next = suc m.next }

abbrev pub write : Memory → ℕ → Value → Memory
write m a v = record m { cells = λ b. if eqb b a then v else m.cells b }

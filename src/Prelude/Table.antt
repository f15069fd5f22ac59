-- ===== src/Prelude/Table.antt =====
-- A test that every number below a bound passes, for tables over all bytes.
use Prim.Native.Nat.{ℕ, zero, suc, ◌<◌}
use mathlib.Core.Path.{◌≡◌}
use mathlib.Core.Logic.{inl, inr}
use mathlib.Core.Bool.{Bool, true, ◌&&◌}
use native.Mathlib.Omega.{arith}
use aws_c_common.Prelude.Tests.{◌==◌, ==_iff, Bool-cases}

unfoldable pub all_below : ℕ → (ℕ → Bool) → Bool
all_below zero test = true
all_below (suc n) test = test n && all_below n test

pub of_all_below :
    (n : ℕ) (test : ℕ → Bool) → all_below n test ≡ true → (d : ℕ) → d < n → test d ≡ true
unfolding all_below
of_all_below zero test h d p = elim p [ ]
of_all_below (suc n) test h d p = elim (Bool-cases (d == n)) [
  | inl same ↦ let e : d ≡ n = (==_iff d n).0 same in let t : test n ≡ true = ground arith in rw e t
  | inr other ↦
      let t : all_below n test ≡ true = ground arith in of_all_below n test t d (ground arith)
]

-- ===== src/Prelude/Answers.antt =====
-- What Go returns as a value and an error, and numbers as `%d` prints them.
use Prim.Native.Nat.{ℕ, zero, suc, ◌/◌, ◌%◌}
use Prim.Native.String.{String, slice, ◌++◌}
use mathlib.Core.Path.{◌≡◌, refl}
use mathlib.Core.Logic.{◌⊎◌, inl, inr}
use alresia_voltpanel.Prelude.Checks.{ltb, if◌then◌else◌}
use alresia_voltpanel.Prelude.Int.{ℤ, pos, negsuc}

pub data Outcome (E A : Type 0) : Type 0 where
  failed : E → Outcome E A
  done : A → Outcome E A

pub Outcome-cases :
    {E A : Type 0} (o : Outcome E A) → ((e : E) × (o ≡ failed e)) ⊎ ((a : A) × (o ≡ done a))
Outcome-cases (failed e) = inl (e, refl)
Outcome-cases (done a) = inr (a, refl)

abbrev digit : ℕ → String
digit d = slice "0123456789" d (suc d)

-- `fuel` above the number of digits
digits : ℕ → ℕ → String
digits zero n = ""
digits (suc fuel) n =
    let front = digits fuel (n / 10) in if ltb n 10 then digit n else front ++ digit (n % 10)

pub decimal : ℕ → String
unfolding digits
decimal n = digits (suc n) n

pub show_int : ℤ → String
unfolding decimal
show_int (pos n) = decimal n
show_int (negsuc n) = "-" ++ decimal (suc n)

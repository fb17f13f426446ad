-- ===== src/Prelude/Outcome.antt =====
-- Results of Go code that can return an error or panic.

-- A Go error is kept apart from a run-time panic. `out_of_fuel` belongs to the model only.
pub data Failure {ℓ} (E : Type ℓ) : Type ℓ where
  error : E → Failure E
  panic : Failure E
  out_of_fuel : Failure E

pub data Result {ℓ} (E A : Type ℓ) : Type ℓ where
  ok : A → Result E A
  fail : Failure E → Result E A

-- A value with the property, or an error that Go returns: no panic, and the fuel was enough.
abbrev pub Ends {ℓ} : {E A : Type ℓ} → (A → Type 0) → Result E A → Type 0
Ends P (ok a) = P a
Ends P (fail (error e)) = Unit
Ends P (fail panic) = ⊥
Ends P (fail out_of_fuel) = ⊥

abbrev pub value_or {ℓ} : {E A : Type ℓ} → A → Result E A → A
value_or d (ok a) = a
value_or d (fail e) = d

-- ===== src/Base/Results.antt =====
-- Results of C functions that fail with an error value, and their chains.
use mathlib.Core.Path.{◌≡◌, refl}
use mathlib.Core.Bool.{Bool, true, false}
use mathlib.Core.Option.{Option, none, some}

-- The error code comes first, as what a caller tests first.
pub data Result {ε α} (Code : Type ε) (Val : Type α) : Type (ε ⊔ α) where
  err : Code → Result Code Val
  ok : Val → Result Code Val

abbrev to_end_of {ε α β} :
    {Code : Type ε} {Val : Type α} {Next : Type β}
    → (Val → Result Code Next)
    → Result Code Val
    → Result Code Next
to_end_of next (err code) = err code
to_end_of next (ok val) = next val

infixl 5 ◌>>=◌
abbrev pub ◌>>=◌ {ε α β} :
    {Code : Type ε} {Val : Type α} {Next : Type β}
    → Result Code Val
    → (Val → Result Code Next)
    → Result Code Next
call >>= next = to_end_of next call

-- `if (!b) return code;`
abbrev pub guard {ε α} :
    {Code : Type ε} {Val : Type α} → Bool → Code → Result Code Val → Result Code Val
guard false code rest = err code
guard true code rest = rest

abbrev pub ok_or {ε α} : {Code : Type ε} {Val : Type α} → Option Val → Code → Result Code Val
ok_or none code = err code
ok_or (some val) code = ok val

abbrev pub to_option {ε α} : {Code : Type ε} {Val : Type α} → Result Code Val → Option Val
to_option (err code) = none
to_option (ok val) = some val

module _ {ε α} {Code : Type ε} {Val : Type α} where
  -- A chain that succeeded had a first call that succeeded.
  pub >>=-eq-ok {β} :
      {Next : Type β} (call : Result Code Val) (next : Val → Result Code Next) {end : Next}
      → (call >>= next) ≡ ok end
      → (val : Val) × (call ≡ ok val) × (next val ≡ ok end)
  >>=-eq-ok (err code) next done = cc done
  >>=-eq-ok (ok val) next done = (val, refl, done)

  pub guard-eq-ok :
      (b : Bool) (code : Code) (rest : Result Code Val) {val : Val}
      → guard b code rest ≡ ok val
      → (b ≡ true) × (rest ≡ ok val)
  guard-eq-ok false code rest done = cc done
  guard-eq-ok true code rest done = (refl, done)

  pub ok_or-eq-ok :
      (o : Option Val) (code : Code) {val : Val} → ok_or o code ≡ ok val → o ≡ some val
  ok_or-eq-ok none code done = cc done
  ok_or-eq-ok (some val) code done = cc done

  pub to_option-eq-some :
      (call : Result Code Val) {val : Val} → to_option call ≡ some val → call ≡ ok val
  to_option-eq-some (err code) done = cc done
  to_option-eq-some (ok val) done = cc done

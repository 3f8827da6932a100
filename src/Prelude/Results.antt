-- ===== src/Prelude/Results.antt =====
-- A call that returns or throws. An error is the text of its message.
use Prim.Native.String.{String}
use mathlib.Core.Path.{◌≡◌, refl}
use mathlib.Core.Bool.{Bool, true, false}

pub data Result {ℓ} (Value : Type ℓ) : Type ℓ where
  ok : Value → Result Value
  err : (message : String) → Result Value

-- `if (!condition) throw new Error(message)`.
abbrev pub guard : Bool → String → Result (Unit {0})
guard condition message = elim condition [ true ↦ ok tt | false ↦ err message ]

-- `try { m } catch (e) { handler(e) }`.
abbrev pub catch {ℓ} : {Value : Type ℓ} → Result Value → (String → Value) → Value
catch (err message) handler = handler message
catch (ok value) handler = value

-- Statements that follow one another: after a throw, none of the rest runs.
module _ {ℓ κ} {Value : Type ℓ} {Next : Type κ} where
  infixl 5 ◌>>=◌
  abbrev pub ◌>>=◌ : Result Value → (Value → Result Next) → Result Next
  ◌>>=◌ (err message) rest = err message
  ◌>>=◌ (ok value) rest = rest value

  -- A chain of steps that returns has a first step that returned.
  pub >>=-eq-ok :
      (first : Result Value) (rest : Value → Result Next) {next : Next}
      → (first >>= rest) ≡ ok next
      → (value : Value) × (first ≡ ok value) × (rest value ≡ ok next)
  >>=-eq-ok (ok value) rest h = (value, refl, h)
  >>=-eq-ok (err message) rest h = cc

module _ {κ} {Next : Type κ} where
  infixl 5 ◌>>◌
  abbrev pub ◌>>◌ : Result (Unit {0}) → Result Next → Result Next
  check >> rest = check >>= λ _. rest

-- ===== src/Prelude/Lists.antt =====
-- Lists with native lengths, and the queries that the services make of a table: a table is the list
-- of its rows, in the order in which the database returns them.
use Prim.Native.Nat.{ℕ, suc, ◌+◌, ◌≤◌}
use mathlib.Core.Path.{◌≡◌, refl, sym, ap, subst, ◌∙◌}
use mathlib.Core.Logic.{inl, inr}
use mathlib.Core.Bool.{Bool, true, false, ◌&&◌}
use mathlib.Core.Option.{Option, none, some, some-injective}
use mathlib.Core.List.{List, [], ◌∷◌, ◌++◌, append_assoc, append-nil}
use native.Mathlib.Omega.{arith}
use certiva.Prelude.Tests.{if◌then◌else◌, Bool-cases}

module _ {ℓ} {A : Type ℓ} where
  abbrev pub length : List A → ℕ
  length [] = 0
  length (x ∷ xs) = suc (length xs)

  -- `findFirst` with the where clause `p`.
  abbrev pub find_first : (A → Bool) → List A → Option A
  find_first p [] = none
  find_first p (x ∷ xs) = if p x then some x else find_first p xs

  abbrev pub filter_by : (A → Bool) → List A → List A
  filter_by p [] = []
  filter_by p (x ∷ xs) = if p x then x ∷ filter_by p xs else filter_by p xs

  -- `updateMany` with the where clause `p`.
  abbrev pub update_where : (A → Bool) → (A → A) → List A → List A
  update_where p f [] = []
  update_where p f (x ∷ xs) = (if p x then f x else x) ∷ update_where p f xs

  abbrev pub head_of : List A → Option A
  head_of [] = none
  head_of (x ∷ xs) = some x

  abbrev pub any_of : (A → Bool) → List A → Bool
  any_of p [] = false
  any_of p (x ∷ xs) = if p x then true else any_of p xs

  abbrev pub all_of : (A → Bool) → List A → Bool
  all_of p [] = true
  all_of p (x ∷ xs) = p x && all_of p xs

  pub length-append : (xs ys : List A) → length (xs ++ ys) ≡ length xs + length ys
  length-append [] ys = omega arith
  length-append (x ∷ xs) ys = omega (arith, length-append xs ys)

  pub length-update_where :
      (p : A → Bool) (f : A → A) (xs : List A) → length (update_where p f xs) ≡ length xs
  length-update_where p f [] = refl
  length-update_where p f (x ∷ xs) = ap suc (length-update_where p f xs)

  pub length-filter_by : (p : A → Bool) (xs : List A) → length (filter_by p xs) ≤ length xs
  length-filter_by p [] = omega arith
  length-filter_by p (x ∷ xs) = ground (arith, length-filter_by p xs)

  -- What a query finds satisfies its clause.
  pub find_first-holds :
      (p : A → Bool) (xs : List A) (x : A) → find_first p xs ≡ some x → p x ≡ true
  find_first-holds p [] x h = ground arith
  find_first-holds p (y ∷ ys) x h = ground (arith, find_first-holds p ys x)

module _ {ℓ κ} {A : Type ℓ} (P : A → Type κ) where
  abbrev pub All : List A → Type κ
  All [] = Unit
  All (x ∷ xs) = P x × All xs

  pub All-append : (xs ys : List A) → All xs → All ys → All (xs ++ ys)
  All-append [] ys h k = k
  All-append (x ∷ xs) ys (p, h) k = (p, All-append xs ys h k)

  pub All-update_where :
      (p : A → Bool) (f : A → A) (xs : List A)
      → ((x : A) → P x → p x ≡ true → P (f x))
      → All xs
      → All (update_where p f xs)
  All-update_where p f [] keep h = tt
  All-update_where p f (x ∷ xs) keep (px, h) = elim (Bool-cases (p x)) [
    | inl e ↦ (rw e (keep x px e), All-update_where p f xs keep h)
    | inr e ↦ (rw e px, All-update_where p f xs keep h)
  ]

  -- What holds of every row holds of the row that a query finds.
  pub find_first-All :
      (p : A → Bool) (xs : List A) (x : A) → All xs → find_first p xs ≡ some x → P x
  find_first-All p [] x h e = cc
  find_first-All p (y ∷ ys) x (py, h) e = elim (Bool-cases (p y)) [
    | inl t ↦ subst P (some-injective y x (rw t at e)) py
    | inr f ↦ find_first-All p ys x h (rw f at e)
  ]

module _ {ℓ} {A : Type ℓ} where
  -- An update that keeps the clause of a query changes the row that it finds, and no other.
  pub find_first-update_where :
      (p : A → Bool) (f : A → A) (xs : List A) (x : A)
      → ((y : A) → p y ≡ true → p (f y) ≡ true)
      → find_first p xs ≡ some x
      → find_first p (update_where p f xs) ≡ some (f x)
  find_first-update_where p f [] x keep e = cc
  find_first-update_where p f (y ∷ ys) x keep e = elim (Bool-cases (p y)) [
    | inl t ↦ rw (t, keep y t) (ap (λ z. some (f z)) (some-injective y x (rw t at e)))
    | inr n ↦ rw (n, n) (find_first-update_where p f ys x keep (rw n at e))
  ]

-- The second list continues the first.
pub record Continues {ℓ} {A : Type ℓ} (xs ys : List A) : Type ℓ where
  pub more : List A
  pub is_more : ys ≡ xs ++ more

module _ {ℓ} {A : Type ℓ} where
  pub Continues-refl : (xs : List A) → Continues xs xs
  Continues-refl xs = record { more = []; is_more = sym (append-nil xs) }

  pub Continues-append : (xs zs : List A) → Continues xs (xs ++ zs)
  Continues-append xs zs = record { more = zs; is_more = refl }

  pub Continues-trans : (xs ys zs : List A) → Continues xs ys → Continues ys zs → Continues xs zs
  Continues-trans xs ys zs h k = record {
    more = h.more ++ k.more;
    is_more = k.is_more ∙ ap (λ l. l ++ k.more) h.is_more ∙ append_assoc xs h.more k.more;
  }

pub All-imp {ℓ κ} :
    {A : Type ℓ} (P Q : A → Type κ) (xs : List A) → ((x : A) → P x → Q x) → All P xs → All Q xs
All-imp P Q [] f h = tt
All-imp P Q (x ∷ xs) f (p, h) = (f x p, All-imp P Q xs f h)

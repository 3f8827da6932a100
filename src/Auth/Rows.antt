-- ===== src/Auth/Rows.antt =====
-- How updates and deletions by primary key change what queries find in the table of admins.
use certiva.Prelude.{
  Bool, true, false, not, ◌&&◌, ◌≡◌, refl, inl, inr, some, List, [], ◌∷◌, ◌++◌, ◌==◌, Bool-cases,
  find_first, filter_by, any_of, length, arith,
}
use certiva.Auth.{Admin}
use certiva.Auth.Manage.{update_row, delete_row}

any_of-both :
    (p q : Admin → Bool) (rows : List Admin)
    → any_of (λ a. q a && not (p a)) rows ≡ true
    → any_of q rows ≡ true
any_of-both p q [] h = cc
any_of-both p q (a ∷ rest) h = ground (arith, h, any_of-both p q rest)

module _ (p q : Admin → Bool) (f : Admin → Admin) where
  -- A row of the kind remains if the update keeps the updated row of the kind.
  pub any_of-update_row :
      (rows : List Admin) (e : Admin)
      → find_first p rows ≡ some e
      → (q e ≡ true → q (f e) ≡ true)
      → any_of q rows ≡ true
      → any_of q (update_row p f rows) ≡ true
  any_of-update_row [] e found keep h = cc
  any_of-update_row (a ∷ rest) e found keep h = ground (
    arith,
    found,
    keep,
    h,
    λ (x : find_first p rest ≡ some e) (y : any_of q rest ≡ true).
        any_of-update_row rest e x keep y,
  )

  -- A row of the kind that the update does not touch remains.
  pub any_of-update_row-other :
      (rows : List Admin)
      → any_of (λ a. q a && not (p a)) rows ≡ true
      → any_of q (update_row p f rows) ≡ true
  any_of-update_row-other [] h = cc
  any_of-update_row-other (a ∷ rest) h =
      ground (arith, h, any_of-both p q rest, any_of-update_row-other rest)

  -- An update between rows outside the kind changes nothing of the kind.
  pub filter_by-update_row :
      (rows : List Admin) (e : Admin)
      → find_first p rows ≡ some e
      → q e ≡ false
      → q (f e) ≡ false
      → filter_by q (update_row p f rows) ≡ filter_by q rows
  filter_by-update_row [] e found before after = cc
  filter_by-update_row (a ∷ rest) e found before after = ground (
    arith,
    found,
    before,
    after,
    λ (x : find_first p rest ≡ some e). filter_by-update_row rest e x before after,
  )

module _ (p q : Admin → Bool) where
  pub any_of-delete_row :
      (rows : List Admin) (e : Admin)
      → find_first p rows ≡ some e
      → q e ≡ false
      → any_of q rows ≡ true
      → any_of q (delete_row p rows) ≡ true
  any_of-delete_row [] e found n h = cc
  any_of-delete_row (a ∷ rest) e found n h = ground (
    arith,
    found,
    n,
    h,
    λ (x : find_first p rest ≡ some e) (y : any_of q rest ≡ true). any_of-delete_row rest e x n y,
  )

  pub filter_by-delete_row :
      (rows : List Admin) (e : Admin)
      → find_first p rows ≡ some e
      → q e ≡ false
      → filter_by q (delete_row p rows) ≡ filter_by q rows
  filter_by-delete_row [] e found n = cc
  filter_by-delete_row (a ∷ rest) e found n =
      ground (arith, found, n, λ (x : find_first p rest ≡ some e). filter_by-delete_row rest e x n)

module _ (q : Admin → Bool) where
  pub any_of-append : (rows new : List Admin) → any_of q rows ≡ true → any_of q (rows ++ new) ≡ true
  any_of-append [] new h = cc
  any_of-append (a ∷ rest) new h = ground (arith, h, any_of-append rest new)

  pub filter_by-append-none :
      (rows : List Admin) (a : Admin)
      → q a ≡ false
      → filter_by q (rows ++ a ∷ []) ≡ filter_by q rows
  filter_by-append-none [] a n = rw n refl
  filter_by-append-none (b ∷ rest) a n = elim (Bool-cases (q b)) [
    | inl t ↦ rw (t, filter_by-append-none rest a n) refl
    | inr u ↦ rw (u, filter_by-append-none rest a n) refl
  ]

  -- A count that is not zero is a row that exists.
  pub filter_by-any_of :
      (rows : List Admin) → not (length (filter_by q rows) == 0) ≡ true → any_of q rows ≡ true
  filter_by-any_of [] h = ground arith
  filter_by-any_of (a ∷ rest) h = ground (arith, h, filter_by-any_of rest)

-- ===== src/Lifecycle/Rows/Update.antt =====
-- What an update by id and a guarded insertion do to a sound table of credentials.
use mathlib.Core.Option.{some-injective}
use certiva.Prelude.{
  Bool, true, false, ◌&&◌, ◌||◌, ◌≡◌, sym, ap, subst, ◌∙◌, inl, inr, String, some, List, [], ◌∷◌,
  ◌++◌, ◌===◌, Bool-cases, if◌then◌else◌, find_first, update_where, any_of, All, arith, eq_iff,
  All-append,
}
use certiva.Registry.{Credential}
use certiva.Anchoring.{has_id}
use certiva.Lifecycle.Issue.{shares_unique, shares_live_key, is_live}
use certiva.Lifecycle.Rows.{
  Fixed, Kept, Kept-refl, Kept-Apart, Extends, IsOrderly, Apart, Pairwise, IsSound,
}

module _ (p : Credential → Bool) (f : Credential → Credential)
    (keep : (c : Credential) → p c ≡ true → Kept c (f c)) where
  step-Kept : (c : Credential) → Kept c (if p c then f c else c)
  step-Kept c = elim (Bool-cases (p c)) [ inl t ↦ rw t (keep c t) | inr n ↦ rw n (Kept-refl c) ]

  pub Extends-update_where : (xs : List Credential) → Extends xs (update_where p f xs)
  Extends-update_where [] = tt
  Extends-update_where (c ∷ xs) = (step-Kept c, Extends-update_where xs)

  Apart-update_where :
      (c d : Credential) (xs : List Credential)
      → Kept c d
      → All (Apart c) xs
      → All (Apart d) (update_where p f xs)
  Apart-update_where c d [] k h = tt
  Apart-update_where c d (x ∷ xs) k (a, h) =
      (Kept-Apart c d x _ k (step-Kept x) a, Apart-update_where c d xs k h)

  Pairwise-update_where : (xs : List Credential) → Pairwise xs → Pairwise (update_where p f xs)
  Pairwise-update_where [] h = tt
  Pairwise-update_where (c ∷ xs) (a, h) =
      (Apart-update_where c _ xs (step-Kept c) a, Pairwise-update_where xs h)

  IsOrderly-update_where :
      (xs : List Credential)
      → All IsOrderly xs
      → All (λ c. p c ≡ true → IsOrderly (f c)) xs
      → All IsOrderly (update_where p f xs)
  IsOrderly-update_where [] h k = tt
  IsOrderly-update_where (c ∷ xs) (x, h) (y, k) = elim (Bool-cases (p c)) [
    | inl t ↦ (rw t (y t), IsOrderly-update_where xs h k)
    | inr n ↦ (rw n x, IsOrderly-update_where xs h k)
  ]

  pub update_where-IsSound :
      (xs : List Credential)
      → IsSound xs
      → All (λ c. p c ≡ true → IsOrderly (f c)) xs
      → IsSound (update_where p f xs)
  update_where-IsSound xs s k = record {
    orderly = IsOrderly-update_where xs s.orderly k;
    pairwise = Pairwise-update_where xs s.pairwise;
  }

-- An update that keeps order wherever there was order.
pub All-IsOrderly :
    (p : Credential → Bool) (f : Credential → Credential) (xs : List Credential)
    → ((c : Credential) → IsOrderly c → IsOrderly (f c))
    → All IsOrderly xs
    → All (λ c. p c ≡ true → IsOrderly (f c)) xs
All-IsOrderly p f [] k h = tt
All-IsOrderly p f (c ∷ xs) k (x, h) = (λ _. k c x, All-IsOrderly p f xs k h)

-- Neither unique column nor live key is shared: the rows are apart.
unshared-Apart :
    (new c : Credential) → shares_unique new c ≡ false → shares_live_key new c ≡ false → Apart c new
unfolding shares_unique shares_live_key
unshared-Apart new c h k = record {
  ids = λ e. unique _ (c.id === new.id) ((eq_iff c.id new.id).1 e) h;
  keys = λ l m i s d.
      live (is_live c) (is_live new) (c.issuer.id === new.issuer.id)
        (c.student_id === new.student_id) (c.degree === new.degree) l m
        ((eq_iff c.issuer.id new.issuer.id).1 i) ((eq_iff c.student_id new.student_id).1 s)
        ((eq_iff c.degree new.degree).1 d) k;
}
  where
    unique : (q b : Bool) → b ≡ true → (b || q) ≡ false → ⊥
    unique q true h k = cc
    unique q false h k = cc

    live :
        (a b x y z : Bool)
        → a ≡ true
        → b ≡ true
        → x ≡ true
        → y ≡ true
        → z ≡ true
        → ((a && b) && (x && (y && z))) ≡ false
        → ⊥
    live a b x y z h i j k l m = ground arith

pub unshared-All :
    (new : Credential) (xs : List Credential)
    → any_of (shares_unique new) xs ≡ false
    → any_of (shares_live_key new) xs ≡ false
    → All (λ c. Apart c new) xs
unshared-All new [] h k = tt
unshared-All new (c ∷ xs) h k = elim (Bool-cases (shares_unique new c)) [
  | inl t ↦ cc (rw t at h)
  | inr n ↦ elim (Bool-cases (shares_live_key new c)) [
    | inl t ↦ cc (rw t at k)
    | inr m ↦ (unshared-Apart new c n m, unshared-All new xs (rw n at h) (rw m at k))
  ]
]

Pairwise-append :
    (new : Credential) (xs : List Credential)
    → Pairwise xs
    → All (λ c. Apart c new) xs
    → Pairwise (xs ++ new ∷ [])
Pairwise-append new [] h k = (tt, tt)
Pairwise-append new (c ∷ xs) (a, h) (b, k) =
    (All-append (Apart c) xs (new ∷ []) a (b, tt), Pairwise-append new xs h k)

pub insert-IsSound :
    (new : Credential) (xs : List Credential)
    → IsSound xs
    → any_of (shares_unique new) xs ≡ false
    → any_of (shares_live_key new) xs ≡ false
    → IsOrderly new
    → IsSound (xs ++ new ∷ [])
insert-IsSound new xs s h k o = record {
  orderly = All-append IsOrderly xs (new ∷ []) s.orderly (o, tt);
  pairwise = Pairwise-append new xs s.pairwise (unshared-All new xs h k);
}

pub has_id-Kept : (id : String) (c d : Credential) → Kept c d → has_id id d ≡ has_id id c
unfolding has_id
has_id-Kept id c d k = ap (λ (f : Fixed). f.id === id) k.same

-- The row that has an id is the only one.
none_other :
    (id : String) (c : Credential) (xs : List Credential)
    → has_id id c ≡ true
    → All (Apart c) xs
    → All (λ d. has_id id d ≡ true → d ≡ c) xs
unfolding has_id
none_other id c [] t h = tt
none_other id c (d ∷ xs) t (a, h) = (
  λ u. absurd (a.ids ((eq_iff c.id id).0 t ∙ sym ((eq_iff d.id id).0 u))),
  none_other id c xs t h,
)

pub found-only :
    (id : String) (c : Credential) (xs : List Credential)
    → Pairwise xs
    → find_first (has_id id) xs ≡ some c
    → All (λ d. has_id id d ≡ true → d ≡ c) xs
found-only id c [] h e = tt
found-only id c (x ∷ xs) (a, h) e = elim (Bool-cases (has_id id x)) [
  | inl t ↦
      let same : x ≡ c = some-injective x c (rw t at e) in
      (
        λ _. same,
        subst (λ y. All (λ d. has_id id d ≡ true → d ≡ y) xs) same (none_other id x xs t a),
      )
  | inr n ↦ (λ t. cc (sym n ∙ t), found-only id c xs h (rw n at e))
]

-- A row that a query by id found is found later too, with what has become of it.
pub Kept-found :
    (id : String) (xs ys : List Credential) (c : Credential)
    → Extends xs ys
    → find_first (has_id id) xs ≡ some c
    → (d : Credential) × (find_first (has_id id) ys ≡ some d) × Kept c d
Kept-found id [] ys c h e = cc
Kept-found id (x ∷ xs) [] c h e = absurd h
Kept-found id (x ∷ xs) (y ∷ ys) c (k, h) e =
    let same : has_id id y ≡ has_id id x = has_id-Kept id x y k in
    elim (Bool-cases (has_id id x)) [
      | inl t ↦ (y, simp (same, t), subst (λ z. Kept z y) (some-injective x c (rw t at e)) k)
      | inr n ↦ simp (same, n) (Kept-found id xs ys c h (rw n at e))
    ]

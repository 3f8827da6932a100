-- ===== src/Lifecycle/Rows/Registered.antt =====
-- Tables that differ in the columns of the chain only: one is sound if the other is, and extends it.
use certiva.Prelude.{inl, ◌≡◌, sym, ap, subst, ◌∙◌, List, [], ◌∷◌, map, All, is_some}
use certiva.Registry.{Credential}
use certiva.Anchoring.Frame.{registered}
use certiva.Lifecycle.Rows.{fixed, Kept, Kept-Apart, Extends, IsOrderly, Apart, Pairwise}

-- Tables with the same registered columns.
registered-Kept : (c d : Credential) → registered d ≡ registered c → Kept c d
registered-Kept c d e = record {
  same = ap fixed e;
  hashes =
      inl
        (ap (λ (x : Credential). x.document_hash) e, ap (λ (x : Credential). x.chain_proof_hash) e);
  stays_revoked = λ h. ap (λ (x : Credential). x.revoked) e ∙ h;
  stays_deleted = λ h. ap (λ (x : Credential). is_some x.deleted_at) e ∙ h;
}

head-eq :
    (c d : Credential) (xs ys : List Credential)
    → map registered (d ∷ ys) ≡ map registered (c ∷ xs)
    → registered d ≡ registered c
head-eq c d xs ys e = cc

tail-eq :
    (c d : Credential) (xs ys : List Credential)
    → map registered (d ∷ ys) ≡ map registered (c ∷ xs)
    → map registered ys ≡ map registered xs
tail-eq c d xs ys e = cc

pub registered-Extends :
    (xs ys : List Credential) → map registered ys ≡ map registered xs → Extends xs ys
registered-Extends [] ys e = tt
registered-Extends (c ∷ xs) [] e = cc
registered-Extends (c ∷ xs) (d ∷ ys) e =
    (registered-Kept c d (head-eq c d xs ys e), registered-Extends xs ys (tail-eq c d xs ys e))

registered-All-Apart :
    (c d : Credential) (xs ys : List Credential)
    → Kept c d
    → map registered ys ≡ map registered xs
    → All (Apart c) xs
    → All (Apart d) ys
registered-All-Apart c d xs [] k e h = tt
registered-All-Apart c d [] (y ∷ ys) k e h = cc
registered-All-Apart c d (x ∷ xs) (y ∷ ys) k e (a, h) = (
  Kept-Apart c d x y k (registered-Kept x y (head-eq x y xs ys e)) a,
  registered-All-Apart c d xs ys k (tail-eq x y xs ys e) h,
)

pub registered-Pairwise :
    (xs ys : List Credential) → map registered ys ≡ map registered xs → Pairwise xs → Pairwise ys
registered-Pairwise xs [] e h = tt
registered-Pairwise [] (y ∷ ys) e h = cc
registered-Pairwise (x ∷ xs) (y ∷ ys) e (a, h) = (
  registered-All-Apart x y xs ys (registered-Kept x y (head-eq x y xs ys e)) (tail-eq x y xs ys e)
      a,
  registered-Pairwise xs ys (tail-eq x y xs ys e) h,
)

pub registered-IsOrderly :
    (xs ys : List Credential)
    → map registered ys ≡ map registered xs
    → All IsOrderly xs
    → All IsOrderly ys
registered-IsOrderly xs [] e h = tt
registered-IsOrderly [] (y ∷ ys) e h = cc
registered-IsOrderly (x ∷ xs) (y ∷ ys) e (o, h) = (
  subst (λ (z : Credential). IsOrderly z) (sym (head-eq x y xs ys e)) o,
  registered-IsOrderly xs ys (tail-eq x y xs ys e) h,
)

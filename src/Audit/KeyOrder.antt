-- ===== src/Audit/KeyOrder.antt =====
-- `canonicalize` of apps/api/src/modules/audit/audit-log.service.ts and the order of keys, in which the
-- database may return a JSON column.
use certiva.Prelude.{
  Bool, true, false, ◌≡◌, ◌≢◌, refl, ap, ◌∙◌, inl, inr, String, some, List, [], ◌∷◌, Bool-cases,
}
use certiva.Assets.{◌<>◌}
use certiva.Audit.{
  Builtins, Json, object, Members, member, insert_key, join, print_members, sorted_members,
  canonicalize, Entry, payload, compute_entry_hash,
}

-- A strict total order on keys, as the order of `sort` is one.
pub record IsKeyOrder (before : String → String → Bool) : Type 0 where
  pub asymmetric : (x y : String) → before x y ≡ true → before y x ≡ false
  pub transitive : (x y z : String) → before x y ≡ true → before y z ≡ true → before x z ≡ true
  pub connected : (x y : String) → x ≢ y → before x y ≡ false → before y x ≡ true

-- The same members in another order, inside nested objects too.
pub data Reordered : Members → Members → Type 0 where
  same : {ms : Members} → Reordered ms ms
  swapped :
      {ms : Members} (k : String) (j : Json) (l : String) (i : Json)
      → k ≢ l
      → Reordered (member k j (member l i ms)) (member l i (member k j ms))
  kept :
      {ms ms' : Members} (k : String) (j : Json)
      → Reordered ms ms'
      → Reordered (member k j ms) (member k j ms')
  inside :
      {ms ms' rest : Members} (k : String)
      → Reordered ms ms'
      → Reordered (member k (object ms) rest) (member k (object ms') rest)
  again : {ms ms' ms'' : Members} → Reordered ms ms' → Reordered ms' ms'' → Reordered ms ms''

module _ (b : Builtins) (order : IsKeyOrder b.key_before) where
  insert_swap :
      (k p l q : String) (members : List (String × String))
      → k ≢ l
      → insert_key b k p (insert_key b l q members) ≡ insert_key b l q (insert_key b k p members)
  insert_swap k p l q [] n = elim (Bool-cases (b.key_before k l)) [
    | inl t ↦ rw (t, order.asymmetric k l t) refl
    | inr f ↦ rw (f, order.connected k l n f) refl
  ]
  insert_swap k p l q (m ∷ rest) n = elim (Bool-cases (b.key_before k m.0)) [
    | inl s ↦ elim (Bool-cases (b.key_before l m.0)) [
      | inl t ↦ elim (Bool-cases (b.key_before k l)) [
        | inl u ↦ simp (s, t, u, order.asymmetric k l u)
        | inr f ↦ simp (s, t, f, order.connected k l n f)
      ]
      | inr t ↦ elim (Bool-cases (b.key_before l k)) [
        | inl u ↦ cc (t, order.transitive l k m.0 u s)
        | inr f ↦ simp (t, s, f)
      ]
    ]
    | inr s ↦ elim (Bool-cases (b.key_before l m.0)) [
      | inl t ↦ elim (Bool-cases (b.key_before k l)) [
        | inl u ↦ cc (s, order.transitive k l m.0 u t)
        | inr f ↦ simp (s, t, f)
      ]
      | inr t ↦ rw (s, t, s) (ap (λ r. m ∷ r) (insert_swap k p l q rest n))
    ]
  ]

  sorted_same : {ms ms' : Members} → Reordered ms ms' → sorted_members b ms ≡ sorted_members b ms'
  unfolding canonicalize
  sorted_same same = refl
  sorted_same (swapped {ms} k j l i n) =
      insert_swap k (canonicalize b j) l (canonicalize b i) (sorted_members b ms) n
  sorted_same (kept k j r) = ap (insert_key b k (canonicalize b j)) (sorted_same r)
  sorted_same (inside k r) = rw (sorted_same r) refl
  sorted_same (again r s) = sorted_same r ∙ sorted_same s

  canonical_same :
      {ms ms' : Members}
      → Reordered ms ms'
      → canonicalize b (object ms) ≡ canonicalize b (object ms')
  unfolding canonicalize
  canonical_same r =
      ap (λ members. "{" <> join "," (print_members b members) <> "}") (sorted_same r)

-- The entry hash does not depend on the order in which the keys of the metadata come back, at any
-- depth of nested objects, when keys are sorted by a strict total order.
pub metadata-Reordered :
    (b : Builtins) (e : Entry) (ms ms' : Members)
    → IsKeyOrder b.key_before
    → Reordered ms ms'
    → compute_entry_hash b (record e { metadata = some (object ms) })
      ≡ compute_entry_hash b (record e { metadata = some (object ms') })
unfolding compute_entry_hash
metadata-Reordered b e ms ms' order r =
    rw (compute_entry_hash, payload, canonical_same b order r) refl

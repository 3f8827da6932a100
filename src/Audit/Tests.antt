-- ===== src/Audit/Tests.antt =====
-- A log of two entries, and the theorems about it.
use Prim.Native.Char.{code}
use Prim.{absurd}
use package.text.Mathlib.TextEquality.{Char-path}
use certiva.Prelude.{
  String, Bool, ltb, ◌==◌, if◌then◌else◌, arith, ap, ◌∙◌, inl, inr, Bool-cases, eq_iff, ℕ, true,
  false, ◌≡◌, ◌↔◌, refl, none, some, List, [], ◌∷◌,
}
use certiva.Assets.{◌<>◌}
use certiva.Audit.{
  Builtins, null, text, object, member, no_members, Entry, canonicalize, payload,
  compute_entry_hash,
}
use certiva.Audit.Chain.{
  ChainRow, AuditEventInput, chained, next_row, write_entry, verify_audit_chain_rows, verify_chain,
}
use certiva.Audit.Intact.{IsIntact, verify_iff}
use certiva.Audit.History.{writes, empty_log, history_verifies}
use certiva.Audit.Deletion.{deletion_detected}
use certiva.Audit.Chain.{committed, rolled_back, log}
use certiva.Audit.Rollback.{rollback_reported}
use certiva.Audit.Separator.{separator_moved}
use certiva.Audit.KeyOrder.{IsKeyOrder, swapped, metadata-Reordered}

-- Keys in the order of their code points.
abbrev code_before : String → String → Bool
code_before String.[] String.[] = false
code_before String.[] (String.◌∷◌ d t) = true
code_before (String.◌∷◌ c s) String.[] = false
code_before (String.◌∷◌ c s) (String.◌∷◌ d t) =
    if ltb (code c) (code d) then true else if code c == code d then code_before s t else false

before_asymmetric : (x y : String) → code_before x y ≡ true → code_before y x ≡ false
before_asymmetric String.[] String.[] h = cc
before_asymmetric String.[] (String.◌∷◌ d t) h = refl
before_asymmetric (String.◌∷◌ c s) String.[] h = cc
before_asymmetric (String.◌∷◌ c s) (String.◌∷◌ d t) h = ground (arith, h, before_asymmetric s t)

before_transitive :
    (x y z : String) → code_before x y ≡ true → code_before y z ≡ true → code_before x z ≡ true
before_transitive String.[] String.[] z h k = cc
before_transitive String.[] (String.◌∷◌ d t) String.[] h k = cc
before_transitive String.[] (String.◌∷◌ d t) (String.◌∷◌ e u) h k = refl
before_transitive (String.◌∷◌ c s) String.[] z h k = cc
before_transitive (String.◌∷◌ c s) (String.◌∷◌ d t) String.[] h k = cc
before_transitive (String.◌∷◌ c s) (String.◌∷◌ d t) (String.◌∷◌ e u) h k =
    ground (arith, h, k, before_transitive s t u)

before_connected : (x y : String) → code_before x y ≡ false → code_before y x ≡ false → x ≡ y
before_connected String.[] String.[] h k = refl
before_connected String.[] (String.◌∷◌ d t) h k = cc
before_connected (String.◌∷◌ c s) String.[] h k = cc
before_connected (String.◌∷◌ c s) (String.◌∷◌ d t) h k =
    let head : code c ≡ code d = ground (arith, h, k) in
    let tail : s ≡ t = before_connected s t (ground (arith, h, head)) (ground (arith, k, head)) in
    ap (λ e. String.◌∷◌ e s) (Char-path c d head) ∙ ap (λ u. String.◌∷◌ d u) tail

code_before-IsKeyOrder : IsKeyOrder code_before
code_before-IsKeyOrder = record {
  asymmetric = before_asymmetric;
  transitive = before_transitive;
  connected = λ x y n f. elim (Bool-cases (code_before y x)) [
    | inl t ↦ t
    | inr u ↦ absurd (n (before_connected x y f u))
  ];
}

-- A stand-in for the built-in functions, on which runs can be computed.
abbrev builtins : Builtins
builtins = record {
  sha256 = λ s. "#" <> s;
  iso = λ now. "t";
  quote = λ s. "'" <> s <> "'";
  show = λ n. "0";
  key_before = code_before;
}

canonical :
    canonicalize builtins (object (member "b" null (member "a" (text "x") no_members)))
    ≡ "{'a':'x','b':null}"
unfolding canonicalize
canonical = refl

abbrev created : AuditEventInput
created = record {
  action = "ADMIN_CREATED";
  actor_admin_id = some "a1";
  actor_username = some "root";
  target_type = some "Admin";
  target_id = some "a2";
  metadata = none;
  ip_address = none;
  user_agent = none;
}

abbrev deleted : AuditEventInput
deleted = record created { action = "ADMIN_DELETED" }

abbrev events : List (ℕ × AuditEventInput)
events = (5, created) ∷ (6, deleted) ∷ []

abbrev entry : Entry
entry = record {
  action = "ADMIN_CREATED";
  actor_admin_id = some "a1";
  actor_username = some "root";
  target_type = some "Admin";
  target_id = some "a2";
  metadata = none;
  ip_address = none;
  user_agent = none;
  created_at = 5;
  prev_hash = none;
}

abbrev first_row : ChainRow
first_row = record {
  entry = entry;
  seq = 1;
  entry_hash = some "#GENESIS|ADMIN_CREATED|a1|root|Admin|a2|null|||t";
}

abbrev second_row : ChainRow
second_row = record {
  entry = record entry {
    action = "ADMIN_DELETED";
    created_at = 6;
    prev_hash = some "#GENESIS|ADMIN_CREATED|a1|root|Admin|a2|null|||t";
  };
  seq = 2;
  entry_hash =
      some
        "##GENESIS|ADMIN_CREATED|a1|root|Admin|a2|null|||t|ADMIN_DELETED|a1|root|Admin|a2|null|||t";
}

written : (writes builtins events empty_log).rows ≡ first_row ∷ second_row ∷ []
unfolding write_entry next_row chained compute_entry_hash payload canonicalize
written = refl

-- An edit of a row's content that its payload shows is found.
edited :
    (verify_audit_chain_rows builtins
      (record first_row { entry = record entry { action = "LOGIN" } } ∷ second_row ∷ [])
      none).valid
    ≡ false
unfolding verify_audit_chain_rows chained compute_entry_hash payload canonicalize
edited = refl

verify_iff_example :
    ((verify_audit_chain_rows builtins (first_row ∷ second_row ∷ []) none).valid ≡ true)
    ↔ IsIntact builtins (first_row ∷ second_row ∷ []) none
verify_iff_example = verify_iff builtins (first_row ∷ second_row ∷ []) none

history_verifies_example : (verify_chain builtins (writes builtins events empty_log)).valid ≡ true
history_verifies_example = history_verifies builtins events

deletion_detected_example :
    (verify_audit_chain_rows builtins
      (first_row ∷ [])
      (writes builtins events empty_log).head).valid
    ≡ false
deletion_detected_example =
    deletion_detected builtins events (first_row ∷ []) second_row [] [] written

separator_moved_example :
    (compute_entry_hash builtins
        (record entry { target_type = some "Admin|a2"; target_id = some "x" })
      ≡ compute_entry_hash builtins
          (record entry { target_type = some "Admin"; target_id = some "a2|x" }))
    × (compute_entry_hash builtins (record entry { target_id = none })
        ≡ compute_entry_hash builtins (record entry { target_id = some "" }))
separator_moved_example = separator_moved builtins entry "Admin" "a2" "x"

metadata-Reordered_example :
    compute_entry_hash builtins (record entry {
      metadata = some (object (member "b" null (member "a" (text "x") no_members)));
    })
    ≡ compute_entry_hash builtins (record entry {
      metadata = some (object (member "a" (text "x") (member "b" null no_members)));
    })
metadata-Reordered_example =
    metadata-Reordered builtins entry (member "b" null (member "a" (text "x") no_members))
      (member "a" (text "x") (member "b" null no_members)) code_before-IsKeyOrder
      (swapped "b" null "a" (text "x") (ground (arith, eq_iff "b" "a")))

rollback_reported_example :
    let db = log builtins rolled_back 7 created (writes builtins events empty_log) in
    (db.rows ≡ first_row ∷ second_row ∷ [])
    × (db.head ≡ (writes builtins events empty_log).head)
    × ((verify_chain builtins db).valid ≡ true)
    × ((verify_chain builtins (log builtins committed 8 deleted db)).valid ≡ false)
rollback_reported_example =
    rollback_reported builtins events 7 8 created deleted first_row (second_row ∷ []) written

-- ===== src/Audit/Separator.antt =====
-- What the payload of `computeEntryHash` in apps/api/src/modules/audit/audit-log.service.ts does not tell
-- apart.
use text.Mathlib.TextLemmas.{append_assoc}
use certiva.Prelude.{◌≡◌, refl, ap, String, none, some}
use certiva.Assets.{◌<>◌}
use certiva.Audit.{Builtins, Entry, payload, compute_entry_hash}

bars :
    (x y z rest : String)
    → (x <> "|" <> y) <> "|" <> z <> rest ≡ x <> "|" <> (y <> "|" <> z) <> rest
bars x y z rest = simp append_assoc

-- The entry hash does not fix the target of an entry: a bar moved from the one side of the border
-- between target type and target id to the other, and a missing target id in place of an empty one,
-- leave the hash as it is, whatever the hash function.
pub separator_moved :
    (b : Builtins) (e : Entry) (x y z : String)
    → (compute_entry_hash b (record e { target_type = some (x <> "|" <> y); target_id = some z })
        ≡ compute_entry_hash b
            (record e { target_type = some x; target_id = some (y <> "|" <> z) }))
      × (compute_entry_hash b (record e { target_id = none })
          ≡ compute_entry_hash b (record e { target_id = some "" }))
unfolding compute_entry_hash payload
separator_moved b e x y z = (ap b.sha256 (simp append_assoc), refl)

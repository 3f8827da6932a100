-- ===== src/Audit.antt =====
-- apps/api/src/modules/audit/audit-log.service.ts: the hash chain of the audit log. SHA-256 and what
-- the code uses of the language, `JSON.stringify` on strings and numbers, `toISOString` and the order
-- of `sort` on keys, are arguments.
mod Tests
pub mod Chain
pub mod Intact
pub mod History
pub mod Deletion
pub mod Rollback
pub mod Separator
pub mod KeyOrder
use Prim.Native.String
use certiva.Prelude.{
  ℕ, ◌+◌, Bool, true, false, String, Option, none, some, List, [], ◌∷◌, ◌++◌, if◌then◌else◌,
  or_else,
}
use certiva.Assets.{◌<>◌}

pub record Builtins : Type 0 where
  pub sha256 : String → String
  pub iso : ℕ → String
  pub quote : String → String
  pub show : ℕ → String
  pub key_before : String → String → Bool

-- A value of a metadata column.
mutual
  pub data Json : Type 0 where
    null : Json
    bool : Bool → Json
    number : ℕ → Json
    text : String → Json
    array : Elements → Json
    object : Members → Json

  pub data Elements : Type 0 where
    no_elements : Elements
    element : Json → Elements → Elements

  pub data Members : Type 0 where
    no_members : Members
    member : String → Json → Members → Members

-- `join(',')`
abbrev join : String → List String → String
join separator [] = ""
join separator (s ∷ rest) = joined s rest
  where
    joined : String → List String → String
    joined s [] = s
    joined s (t ∷ rest) = s <> separator <> joined t rest

-- `keys.sort()`: the printed members, inserted at their keys.
abbrev insert_key : Builtins → String → String → List (String × String) → List (String × String)
insert_key b key printed [] = (key, printed) ∷ []
insert_key b key printed (m ∷ rest) =
    if b.key_before key m.0 then (key, printed) ∷ m ∷ rest else m ∷ insert_key b key printed rest

abbrev print_members : Builtins → List (String × String) → List String
print_members b [] = []
print_members b (m ∷ rest) = (b.quote m.0 <> ":" <> m.1) ∷ print_members b rest

-- `canonicalize`
unfoldable mutual
  pub canonicalize : Builtins → Json → String
  canonicalize b null = "null"
  canonicalize b (bool true) = "true"
  canonicalize b (bool false) = "false"
  canonicalize b (number n) = b.show n
  canonicalize b (text s) = b.quote s
  canonicalize b (array es) = "[" <> join "," (canonical_elements b es) <> "]"
  canonicalize b (object ms) = "{" <> join "," (print_members b (sorted_members b ms)) <> "}"

  pub canonical_elements : Builtins → Elements → List String
  canonical_elements b no_elements = []
  canonical_elements b (element j es) = canonicalize b j ∷ canonical_elements b es

  pub sorted_members : Builtins → Members → List (String × String)
  sorted_members b no_members = []
  sorted_members b (member key j ms) = insert_key b key (canonicalize b j) (sorted_members b ms)

-- HashableEntry
pub record Entry : Type 0 where
  pub action : String
  pub actor_admin_id : Option String
  pub actor_username : Option String
  pub target_type : Option String
  pub target_id : Option String
  pub metadata : Option Json
  pub ip_address : Option String
  pub user_agent : Option String
  pub created_at : ℕ
  pub prev_hash : Option String

-- The payload of `computeEntryHash`, joined by bars.
unfoldable pub payload : Builtins → Entry → String
payload b e =
    or_else e.prev_hash "GENESIS"
    <> "|"
    <> e.action
    <> "|"
    <> or_else e.actor_admin_id ""
    <> "|"
    <> or_else e.actor_username ""
    <> "|"
    <> or_else e.target_type ""
    <> "|"
    <> or_else e.target_id ""
    <> "|"
    <> canonicalize b (or_else e.metadata null)
    <> "|"
    <> or_else e.ip_address ""
    <> "|"
    <> or_else e.user_agent ""
    <> "|"
    <> b.iso e.created_at

unfoldable pub compute_entry_hash : Builtins → Entry → String
unfolding payload
compute_entry_hash b e = b.sha256 (payload b e)

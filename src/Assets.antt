-- ===== src/Assets.antt =====
-- apps/api/src/modules/credential/credential-assets.service.ts: the addresses of a credential's
-- assets, as they are stored and as they are served. `encode` is `encodeURIComponent`.
use Prim.Native.Char.{Char, code}
use Prim.Native.String
use text.Mathlib.Text.{find?}
use certiva.Prelude.{String, Option, none, some, is_some, truthy, ◌===◌, ◌==◌, if◌then◌else◌}
use certiva.Text.{trim}

pub record AssetConfig : Type 0 where
  pub api_public_base_url : String
  pub web_public_base_url : String
  pub encode : String → String

infixr 65 ◌<>◌
abbrev pub ◌<>◌ : String → String → String
s <> t = String.◌++◌ s t

-- `value.replace(/\/+$/, '')`
keep_unless_slash : Char → String → String
keep_unless_slash c String.[] = if code c == 47 then String.[] else String.◌∷◌ c String.[]
keep_unless_slash c (String.◌∷◌ d s) = String.◌∷◌ c (String.◌∷◌ d s)

unfoldable pub strip_slashes : String → String
unfolding keep_unless_slash
strip_slashes String.[] = String.[]
strip_slashes (String.◌∷◌ c s) = keep_unless_slash c (strip_slashes s)

unfoldable pub normalize_non_empty : Option String → Option String
normalize_non_empty none = none
normalize_non_empty (some value) = if truthy (some (trim value)) then some (trim value) else none

-- A stored address is served only if it is the expected one.
resolve_expected : String → Option String → String
resolve_expected expected none = expected
resolve_expected expected (some stored) = if stored === expected then stored else expected

-- A stored URL is served only if it contains the credential's path.
resolve_containing : String → String → Option String → String
resolve_containing path expected none = expected
resolve_containing path expected (some stored) =
    if is_some (find? stored path) then stored else expected

module _ (cfg : AssetConfig) where
  build_metadata_uri : String → String
  build_metadata_uri id =
      strip_slashes cfg.api_public_base_url <> "/credentials/" <> cfg.encode id <> "/metadata"

  build_qr_code_uri : String → String
  build_qr_code_uri id =
      strip_slashes cfg.api_public_base_url <> "/credentials/" <> cfg.encode id <> "/qr"

  build_certificate_uri : String → String
  build_certificate_uri id =
      strip_slashes cfg.api_public_base_url <> "/verify/" <> cfg.encode id <> "/certificate"

  build_verification_url : String → String
  build_verification_url id = strip_slashes cfg.web_public_base_url <> "/verify/" <> cfg.encode id

  unfoldable pub resolve_metadata_uri : String → Option String → String
  unfolding build_metadata_uri resolve_expected normalize_non_empty
  resolve_metadata_uri id value =
      resolve_expected (build_metadata_uri id) (normalize_non_empty value)

  unfoldable pub resolve_qr_code_uri : String → Option String → String
  unfolding build_qr_code_uri resolve_expected normalize_non_empty
  resolve_qr_code_uri id value = resolve_expected (build_qr_code_uri id) (normalize_non_empty value)

  unfoldable pub resolve_certificate_uri : String → Option String → String
  unfolding build_certificate_uri resolve_expected normalize_non_empty
  resolve_certificate_uri id value =
      resolve_expected (build_certificate_uri id) (normalize_non_empty value)

  unfoldable pub resolve_verification_url : String → Option String → String
  unfolding build_verification_url resolve_containing normalize_non_empty
  resolve_verification_url id value =
      resolve_containing ("/verify/" <> id) (build_verification_url id) (normalize_non_empty value)

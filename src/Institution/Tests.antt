-- ===== src/Institution/Tests.antt =====
-- The institution service on concrete rows.
use certiva.Prelude.{Bool, false, ◌≡◌, refl, some, none, [], ok}
use certiva.Text.{trim, is_space}
use certiva.Auth.{Accounts}
use certiva.Institution.{
  Setting, UpdateInstitutionDto, normalize_wallet, trimmed, updated, ensure_development_institution,
}
use certiva.Fixtures.{issuer}

abbrev setting : Bool → Setting
setting development = record {
  development = development;
  issuer_wallet = some " 0xB2 ";
  get_address = λ a. ok a;
  new_id = "iss2";
}

abbrev none_yet : Accounts
none_yet = record { admins = []; issuers = []; audit_log = [] }

-- A patch that names a new name only.
abbrev renamed : UpdateInstitutionDto
renamed = record {
  name = some "Universitas Baru";
  display_name = none;
  domain = none;
  logo_url = none;
  website_url = none;
  wallet = none;
  status = none;
}

rename_test :
    ((updated (setting false) renamed issuer).name ≡ "Universitas Baru")
    × ((updated (setting false) renamed issuer).domain ≡ issuer.domain)
    × ((updated (setting false) renamed issuer).wallet ≡ none)
    × ((updated (setting false) renamed issuer).display_name ≡ none)
unfolding updated trimmed normalize_wallet trim is_space
rename_test = (refl, refl, refl, refl)

wallet_test : normalize_wallet (λ a. ok a) (some " 0xB2 ") ≡ some "0xB2"
unfolding normalize_wallet trimmed trim is_space
wallet_test = refl

production_test : (ensure_development_institution (setting false) none_yet).0 ≡ none
unfolding ensure_development_institution
production_test = refl

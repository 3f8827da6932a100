-- ===== src/Csv/Line.antt =====
-- `parseCsvLine` of apps/api/src/modules/credential/credential.bulk.utils.ts.
use Prim.Native.Char.{Char, code}
use certiva.Prelude.{
  Bool, true, false, not, ◌&&◌, String, List, [], ◌∷◌, ◌++◌, Result, ok, err, ◌==◌, if◌then◌else◌,
}
use certiva.Assets.{◌<>◌}

-- The variables of the loop; `skip` is the `index += 1` after an escaped quote.
pub record Scan : Type 0 where
  pub fields : List String
  pub current : String
  pub in_quotes : Bool
  pub skip : Bool

-- `line[index + 1] === '"'`
unfoldable pub starts_with_quote : String → Bool
starts_with_quote String.[] = false
starts_with_quote (String.◌∷◌ c s) = code c == 34

unfoldable pub scan_char : Char → Bool → Scan → Scan
scan_char c quote_follows st =
    if code c == 34
    then (if st.in_quotes && quote_follows
        then record st { current = st.current <> "\""; skip = true }
        else record st { in_quotes = not st.in_quotes })
    else if code c == 44 && not st.in_quotes
    then record st { fields = st.fields ++ st.current ∷ []; current = "" }
    else record st { current = st.current <> String.◌∷◌ c String.[] }

unfoldable pub scan_line : String → Scan → Scan
unfolding starts_with_quote scan_char
scan_line String.[] st = st
scan_line (String.◌∷◌ c s) st =
    scan_line s
      (if st.skip then record st { skip = false } else scan_char c (starts_with_quote s) st)

abbrev pub finish : Scan → Result (List String)
finish st =
    if st.in_quotes then err "Unclosed quote in CSV line." else ok (st.fields ++ st.current ∷ [])

abbrev pub start : Scan
start = record { fields = []; current = ""; in_quotes = false; skip = false }

unfoldable pub parse_csv_line : String → Result (List String)
unfolding scan_line
parse_csv_line line = finish (scan_line line start)

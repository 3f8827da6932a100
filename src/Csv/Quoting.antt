-- ===== src/Csv/Quoting.antt =====
-- The quoting that `parseCsvLine` undoes: every field in quotes, with its quotes doubled.
use Prim.Native.Char.{Char, code}
use text.Mathlib.TextEquality.{Char-path}
use text.Mathlib.TextLemmas.{append_assoc, append-nil, cons-append, nil-append}
use mathlib.Core.List
use certiva.Prelude.{
  Bool, true, false, ◌≡◌, refl, sym, ap, ◌∙◌, inl, inr, String, List, [], ◌∷◌, ◌++◌, ok, ◌==◌,
  ==_iff, Bool-cases, if◌then◌else◌,
}
use certiva.Assets.{◌<>◌}
use certiva.Csv.Line.{Scan, starts_with_quote, scan_char, scan_line, finish, parse_csv_line}

-- The field with its quotes doubled, in front of a text.
escape : String → String → String
escape String.[] rest = rest
escape (String.◌∷◌ c s) rest =
    if code c == 34
    then String.◌∷◌ c (String.◌∷◌ c (escape s rest))
    else String.◌∷◌ c (escape s rest)

-- The field in quotes, in front of a text.
unfoldable pub quote : String → String → String
unfolding escape
quote field rest = String.◌∷◌ "\"" (escape field (String.◌∷◌ "\"" rest))

-- The fields of a line, quoted and separated by commas.
unfoldable pub print_line : String → List String → String
unfolding quote
print_line field [] = quote field String.[]
print_line field (next ∷ rest) = quote field (String.◌∷◌ "," (print_line next rest))

abbrev scanning : List String → String → Bool → Scan
scanning fields current in_quotes = record {
  fields = fields;
  current = current;
  in_quotes = in_quotes;
  skip = false;
}

scan_char-other :
    (c : Char) (b : Bool) (fields : List String) (current : String)
    → (code c == 34) ≡ false
    → scan_char c b (scanning fields current true)
      ≡ scanning fields (current <> String.◌∷◌ c String.[]) true
unfolding scan_char
scan_char-other c b fields current n = elim (Bool-cases (code c == 44)) [
  | inl t ↦ rw (n, t) refl
  | inr m ↦ rw (n, m) refl
]

-- A quote that no quote follows ends the quoted text; one that another follows stands for itself.
scan_char-close :
    (b : Bool) (fields : List String) (current : String)
    → b ≡ false
    → scan_char "\"" b (scanning fields current true) ≡ scanning fields current false
unfolding scan_char
scan_char-close b fields current e = rw e refl

scan_char-double :
    (c : Char) (fields : List String) (current : String)
    → (code c == 34) ≡ true
    → scan_char c true (scanning fields current true)
      ≡ record (scanning fields (current <> "\"") true) { skip = true }
unfolding scan_char
scan_char-double c fields current e = rw e refl

quote_char : (c : Char) → (code c == 34) ≡ true → String.◌∷◌ c String.[] ≡ "\""
quote_char c e = ap (λ d. String.◌∷◌ d String.[]) (Char-path c "\"" ((==_iff (code c) 34).0 e))

-- A character in quotes that is read as itself, once or doubled.
module _ (fields : List String) (s : String) where
  scan_line-other :
      (c : Char) (current : String)
      → (code c == 34) ≡ false
      → scan_line (String.◌∷◌ c s) (scanning fields current true)
        ≡ scan_line s (scanning fields (current <> String.◌∷◌ c String.[]) true)
  unfolding scan_line
  scan_line-other c current n =
      ap (scan_line s) (scan_char-other c (starts_with_quote s) fields current n)

  scan_line-double :
      (c : Char) (current : String)
      → (code c == 34) ≡ true
      → scan_line (String.◌∷◌ c (String.◌∷◌ c s)) (scanning fields current true)
        ≡ scan_line s (scanning fields (current <> String.◌∷◌ c String.[]) true)
  unfolding scan_line starts_with_quote
  scan_line-double c current t =
      ap (λ b. scan_line (String.◌∷◌ c s) (scan_char c b (scanning fields current true))) t
      ∙ ap (scan_line (String.◌∷◌ c s)) (scan_char-double c fields current t)
      ∙ ap (λ (q : String). scan_line s (scanning fields (current <> q) true))
          (sym (quote_char c t))

  scan_line-close :
      (current : String)
      → starts_with_quote s ≡ false
      → scan_line (String.◌∷◌ "\"" s) (scanning fields current true)
        ≡ scan_line s (scanning fields current false)
  unfolding scan_line
  scan_line-close current e =
      ap (scan_line s) (scan_char-close (starts_with_quote s) fields current e)

module _ (fields : List String) (rest : String) (ends : starts_with_quote rest ≡ false) where
  -- The text between the quotes is read back, and then the closing quote.
  scan-escape :
      (s current : String)
      → scan_line (escape s (String.◌∷◌ "\"" rest)) (scanning fields current true)
        ≡ scan_line rest (scanning fields (current <> s) false)
  unfolding escape
  scan-escape String.[] current =
      scan_line-close fields rest current ends
      ∙ ap (λ (t : String). scan_line rest (scanning fields t false)) (sym (append-nil current))
  scan-escape (String.◌∷◌ c s) current =
      let next =
        scan-escape s (current <> String.◌∷◌ c String.[])
        ∙ ap (λ (t : String). scan_line rest (scanning fields t false))
            (append_assoc current (String.◌∷◌ c String.[]) s
              ∙ ap (λ (t : String). current <> t)
                  (cons-append c String.[] s
                    ∙ ap (λ (t : String). String.◌∷◌ c t) (nil-append s))) in
      elim (Bool-cases (code c == 34)) [
        | inl t ↦
            rw t (scan_line-double fields (escape s (String.◌∷◌ "\"" rest)) c current t ∙ next)
        | inr n ↦ rw n (scan_line-other fields (escape s (String.◌∷◌ "\"" rest)) c current n ∙ next)
      ]

  scan-quote :
      (field : String)
      → scan_line (quote field rest) (scanning fields "" false)
        ≡ scan_line rest (scanning fields field false)
  unfolding quote scan_line scan_char
  scan-quote field =
      scan-escape field ""
      ∙ ap (λ (t : String). scan_line rest (scanning fields t false)) (nil-append field)

scan-print :
    (fields : List String) (field : String) (rest : List String)
    → finish (scan_line (print_line field rest) (scanning fields "" false))
      ≡ ok (fields ++ field ∷ rest)
unfolding print_line scan_line scan_char starts_with_quote
scan-print fields field [] = ap finish (scan-quote fields String.[] refl field)
scan-print fields field (next ∷ rest) =
    ap finish (scan-quote fields (String.◌∷◌ "," (print_line next rest)) refl field)
    ∙ scan-print (fields ++ field ∷ []) next rest
    ∙ ap ok (List.append_assoc fields (field ∷ []) (next ∷ rest))

-- A line of quoted fields, whatever characters they hold, is read back as these fields.
pub parse-print :
    (field : String) (rest : List String)
    → parse_csv_line (print_line field rest) ≡ ok (field ∷ rest)
unfolding parse_csv_line
parse-print field rest = scan-print [] field rest

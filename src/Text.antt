-- ===== src/Text.antt =====
-- What the services use of JavaScript's strings: `trim`, `toLowerCase`, and the pattern
-- /^[a-f0-9]{64}$/ of a SHA-256 value.
use Prim.Native.Nat.{compare, Ordering}
use Prim.Native.Char.{Char, char, code, IsScalar}
use mathlib.Core.Logic.{dite}
use native.Mathlib.Decide.{dec_le}
use certiva.Prelude.{
  ℕ, ◌+◌, ◌-◌, ◌≤◌, ◌≡◌, refl, Bool, false, ◌&&◌, ◌||◌, String, arith, leb, ◌==◌, if◌then◌else◌,
}

-- The characters that `trim` and /\s/ take for white space.
unfoldable pub is_space : ℕ → Bool
is_space c =
    leb 9 c && leb c 13
    || (c == 32
        || (c == 160
            || (c == 0x1680
                || (leb 0x2000 c && leb c 0x200a
                    || (c == 0x2028
                        || (c == 0x2029
                            || (c == 0x202f || (c == 0x205f || (c == 0x3000 || c == 0xfeff)))))))))

trim_start : String → String
trim_start String.[] = String.[]
trim_start (String.◌∷◌ c s) = if is_space (code c) then trim_start s else String.◌∷◌ c s

-- Keeps a character in front of what is left of the rest.
keep_unless_blank : Char → String → String
keep_unless_blank c String.[] = if is_space (code c) then String.[] else String.◌∷◌ c String.[]
keep_unless_blank c (String.◌∷◌ d s) = String.◌∷◌ c (String.◌∷◌ d s)

trim_end : String → String
trim_end String.[] = String.[]
trim_end (String.◌∷◌ c s) = keep_unless_blank c (trim_end s)

unfoldable pub trim : String → String
unfolding trim_start trim_end keep_unless_blank is_space
trim s = trim_end (trim_start s)

-- `replace(/\s+/g, ' ')`: a run of white space becomes one blank; `after` says that one has begun.
collapse_from : Bool → String → String
collapse_from after String.[] = String.[]
collapse_from after (String.◌∷◌ c s) =
    let rest = collapse_from (is_space (code c)) s in
    if is_space (code c) then (if after then rest else String.◌∷◌ " " rest) else String.◌∷◌ c rest

unfoldable pub collapse_spaces : String → String
unfolding collapse_from is_space
collapse_spaces s = collapse_from false s

IsScalar-of_below : (n : ℕ) → compare n 55296 ≡ Ordering.lt → IsScalar n
IsScalar-of_below n e = rw e tt

pub IsScalar-upper : (n : ℕ) → n ≤ 90 → IsScalar (n + 32)
IsScalar-upper n h = IsScalar-of_below (n + 32) (ground arith)

-- `toLowerCase` on the letters A to Z only; other letters stay as they are, where JavaScript would
-- change some. So a login name or an uploaded hash with such letters is not modelled as it is stored;
-- what is compared with hexadecimal digits is not affected.
lower_char : Char → Char
lower_char (char n p) =
    dite (dec_le 65 n)
      (λ _. dite (dec_le n 90) (λ h. char (n + 32) (IsScalar-upper n h)) (λ _. char n p))
      (λ _. char n p)

map_chars : (Char → Char) → String → String
map_chars f String.[] = String.[]
map_chars f (String.◌∷◌ c s) = String.◌∷◌ (f c) (map_chars f s)

unfoldable pub to_lower_case : String → String
unfolding lower_char map_chars dec_le
to_lower_case s = map_chars lower_char s

unfoldable pub is_hex_char : ℕ → Bool
is_hex_char c = leb b'a' c && leb c b'f' || leb b'0' c && leb c b'9'

hex_chars : ℕ → String → Bool
hex_chars n String.[] = n == 0
hex_chars n (String.◌∷◌ c s) = if n == 0 then false else is_hex_char (code c) && hex_chars (n - 1) s

-- /^[a-f0-9]{64}$/.test(s)
unfoldable pub is_hex64 : String → Bool
unfolding hex_chars is_hex_char
is_hex64 s = hex_chars 64 s

trim_test : trim " ab c  " ≡ "ab c"
unfolding trim
trim_test = refl

lower_test : to_lower_case "aBC 1" ≡ "abc 1"
unfolding to_lower_case
lower_test = refl

collapse_test : collapse_spaces "a  b " ≡ "a b "
unfolding collapse_spaces
collapse_test = refl

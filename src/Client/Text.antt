-- ===== src/Client/Text.antt =====
-- `String.prototype.trim`, and texts that may be missing.
use Prim.Native.Char.{Char, code}
use text.Mathlib.Text.{◌==◌ as str_eq}
use closer_v.Prelude.{
  Bool, true, false, ◌&&◌, ◌||◌, ◌==◌, leb, String, Option, none, some, if◌then◌else◌,
}
use closer_v.Domain.Values.{Key}

-- The white space and the line terminators of the language.
abbrev pub is_space : Char → Bool
is_space c =
    let n = code c in
    leb 9 n && leb n 13
    || n == 32
    || n == 160
    || n == 5760
    || leb 8192 n && leb n 8202
    || leb 8232 n && leb n 8233
    || n == 8239
    || n == 8287
    || n == 12288
    || n == 65279

abbrev pub is_empty_text : String → Bool
is_empty_text String.[] = true
is_empty_text (String.◌∷◌ c s) = false

unfoldable pub trim_start : String → String
trim_start String.[] = String.[]
trim_start (String.◌∷◌ c s) = if is_space c then trim_start s else String.◌∷◌ c s

unfoldable pub trim_end : String → String
trim_end String.[] = String.[]
trim_end (String.◌∷◌ c s) =
    let rest = trim_end s in
    if is_space c && is_empty_text rest then String.[] else String.◌∷◌ c rest

unfoldable pub trim : String → String
unfolding trim_start trim_end
trim s = trim_end (trim_start s)

-- `!key.trim()`
abbrev pub is_blank : String → Bool
is_blank s = is_empty_text (trim s)

-- `a === key` for a key that may be null.
abbrev pub has_text : Key → Option Key → Bool
has_text key none = false
has_text key (some k) = str_eq k key

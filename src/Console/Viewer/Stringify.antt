-- ===== src/Console/Viewer/Stringify.antt =====
-- `JSON.stringify`, which web/src/components/json-viewer.tsx shows values by: in one line, and in lines
-- that are indented by 2.
use forgequeue.Common.{
  ℕ, zero, suc, ◌+◌, ◌-◌, ◌/◌, ◌%◌, Bool, false, ◌&&◌, ◌||◌, List, [], ◌∷◌, ◌++◌, Text, txt, ltb,
  leb, ◌==◌, join, if◌then◌else◌,
}
use forgequeue.Types.{
  Json, null, bool, number, text, array, object, Items, nil, cons, Members, end, member,
}
use forgequeue.Client.{show_ℤ}

unfoldable pub hex_digit : ℕ → ℕ
hex_digit n = if ltb n 10 then b'0' + n else b'a' + (n - 10)

-- `\u` and four digits
unfoldable pub unicode_escape : ℕ → Text
unfolding hex_digit
unicode_escape c =
    b'\\'
    ∷ b'u'
    ∷ hex_digit (c / 4096 % 16)
    ∷ hex_digit (c / 256 % 16)
    ∷ hex_digit (c / 16 % 16)
    ∷ hex_digit (c % 16)
    ∷ []

abbrev is_high : ℕ → Bool
is_high c = leb 55296 c && leb c 56319

abbrev is_low : ℕ → Bool
is_low c = leb 56320 c && leb c 57343

-- A unit of a string that is no half of a pair of surrogates.
unfoldable pub quote_unit : ℕ → Text
unfolding unicode_escape
quote_unit c =
    if c == 8
    then txt "\\b"
    else if c == 9
    then txt "\\t"
    else if c == 10
    then txt "\\n"
    else if c == 12
    then txt "\\f"
    else if c == 13
    then txt "\\r"
    else if c == b'"'
    then txt "\\\""
    else if c == b'\\'
    then txt "\\\\"
    else if ltb c 32 || is_high c || is_low c
    then unicode_escape c
    else c ∷ []

abbrev starts_low : Text → Bool
starts_low [] = false
starts_low (c ∷ s) = is_low c

-- The units of a string; `paired` says that the first one ends a pair.
unfoldable pub quote_units : Bool → Text → Text
unfolding quote_unit
quote_units paired [] = []
quote_units paired (c ∷ s) =
    let pair = is_high c && starts_low s in
    (if paired || pair then c ∷ [] else quote_unit c) ++ quote_units pair s

unfoldable pub quote : Text → Text
unfolding quote_units
quote s = b'"' ∷ quote_units false s ++ (b'"' ∷ [])

-- `JSON.stringify(v)`
unfoldable mutual
  unfolding quote show_ℤ join

  pub compact : Json → Text
  compact null = txt "null"
  compact (bool b) = if b then txt "true" else txt "false"
  compact (number n) = show_ℤ n
  compact (text t) = quote t
  compact (array xs) = b'[' ∷ join (compact_items xs) (txt ",") ++ txt "]"
  compact (object fs) = b'{' ∷ join (compact_members fs) (txt ",") ++ txt "}"

  pub compact_items : Items → List Text
  compact_items nil = []
  compact_items (cons x xs) = compact x ∷ compact_items xs

  pub compact_members : Members → List Text
  compact_members end = []
  compact_members (member k v fs) = (quote k ++ (b':' ∷ compact v)) ∷ compact_members fs

unfoldable pub spaces : ℕ → Text
spaces zero = []
spaces (suc n) = b' ' ∷ spaces n

-- The comma after an element, unless it is the last one.
abbrev pub comma_items : Items → Text
comma_items nil = []
comma_items (cons x xs) = txt ","

abbrev pub comma_members : Members → Text
comma_members end = []
comma_members (member k v fs) = txt ","

-- The lines of `JSON.stringify(v, null, 2)`, with what stands before the value in its first line and
-- after it in its last one.
unfoldable mutual
  unfolding compact spaces

  pub pretty_lines : ℕ → Text → Json → Text → List Text
  pretty_lines indent before (array nil) after = (spaces indent ++ before ++ txt "[]" ++ after) ∷ []
  pretty_lines indent before (array (cons x xs)) after =
      (spaces indent ++ before ++ txt "[")
        ∷ (pretty_lines (indent + 2) [] x (comma_items xs) ++ pretty_items (indent + 2) xs)
      ++ ((spaces indent ++ txt "]" ++ after) ∷ [])
  pretty_lines indent before (object end) after =
      (spaces indent ++ before ++ txt "{}" ++ after) ∷ []
  pretty_lines indent before (object (member k v fs)) after =
      (spaces indent ++ before ++ txt "{")
        ∷ (pretty_lines (indent + 2) (quote k ++ txt ": ") v (comma_members fs)
            ++ pretty_members (indent + 2) fs)
      ++ ((spaces indent ++ txt "}" ++ after) ∷ [])
  pretty_lines indent before v after = (spaces indent ++ before ++ compact v ++ after) ∷ []

  pub pretty_items : ℕ → Items → List Text
  pretty_items indent nil = []
  pretty_items indent (cons x xs) =
      pretty_lines indent [] x (comma_items xs) ++ pretty_items indent xs

  pub pretty_members : ℕ → Members → List Text
  pretty_members indent end = []
  pretty_members indent (member k v fs) =
      pretty_lines indent (quote k ++ txt ": ") v (comma_members fs) ++ pretty_members indent fs

-- `JSON.stringify(v, null, 2)`
unfoldable pub pretty : Json → Text
unfolding pretty_lines join
pretty v = join (pretty_lines 0 [] v []) (b'\n' ∷ [])

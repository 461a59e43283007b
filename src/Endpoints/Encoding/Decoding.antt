-- ===== src/Endpoints/Encoding/Decoding.antt =====
-- `encodeURIComponent` against the decoding that a server does: percent signs to bytes, and bytes to
-- UTF-16 units.
use forgequeue.Common.{
  ℕ, zero, suc, ◌+◌, ◌-◌, ◌*◌, ◌/◌, ◌%◌, ◌<◌, ◌≤◌, ◌≡◌, ◌≢◌, ap, ◌∙◌, inl, inr, Bool-cases, refl,
  true, false, Option, none, some, List, [], ◌∷◌, ◌++◌, Text, arith, leb, ltb, ◌==◌, if◌then◌else◌,
  All,
}
use mathlib.Core.List.{append_assoc}
use forgequeue.Endpoints.Encoding.{
  is_unreserved, hex_digit, percent, flat_map, utf8_bytes, utf8, prepend,
}

abbrev pub IsUnit : ℕ → Type 0
IsUnit c = c < 0x10000

abbrev hex_value : ℕ → ℕ
hex_value d = if leb b'A' d then d - b'A' + 10 else d - b'0'

-- `%XX` to a byte; every other unit is its own byte.
unfoldable unescape : Text → List ℕ
unescape (c ∷ d ∷ e ∷ s) =
    let bytes = unescape s in
    let rest = unescape (d ∷ e ∷ s) in
    if c == b'%' then (hex_value d * 16 + hex_value e) ∷ bytes else c ∷ rest
unescape (c ∷ d ∷ []) = c ∷ d ∷ []
unescape (c ∷ []) = c ∷ []
unescape [] = []

abbrev pub units : ℕ → Text
units c =
    if ltb c 0x10000
    then c ∷ []
    else (0xd800 + (c - 0x10000) / 0x400) ∷ (0xdc00 + (c - 0x10000) % 0x400) ∷ []

-- UTF-8 to units, on the number of bytes that a code point still lacks and its bits so far.
unfoldable read_utf8 : ℕ → ℕ → List ℕ → Option Text
read_utf8 zero acc [] = some []
read_utf8 (suc n) acc [] = none
read_utf8 zero acc (b ∷ bs) =
    let plain_rest = read_utf8 0 0 bs in
    let two = read_utf8 1 (b - 0xc0) bs in
    let three = read_utf8 2 (b - 0xe0) bs in
    let four = read_utf8 3 (b - 0xf0) bs in
    if ltb b 0x80
    then prepend (b ∷ []) plain_rest
    else if ltb b 0xe0
    then two
    else if ltb b 0xf0
    then three
    else four
read_utf8 (suc zero) acc (b ∷ bs) = prepend (units (acc * 64 + (b - 0x80))) (read_utf8 0 0 bs)
read_utf8 (suc (suc n)) acc (b ∷ bs) = read_utf8 (suc n) (acc * 64 + (b - 0x80)) bs

unfoldable pub decode : Text → Option Text
unfolding unescape read_utf8
decode t = read_utf8 0 0 (unescape t)

hex_value-hex_digit : (n : ℕ) → n < 16 → hex_value (hex_digit n) ≡ n
unfolding hex_digit
hex_value-hex_digit n h = ground arith

unescape-percent : (b : ℕ) (s : Text) → b < 256 → unescape (percent b ++ s) ≡ b ∷ unescape s
unfolding unescape percent
unescape-percent b s h =
    rw (hex_value-hex_digit (b / 16 % 16) (omega arith), hex_value-hex_digit (b % 16) (omega arith))
      (ap (λ n. n ∷ unescape s) (omega arith))

unescape-unit : (c : ℕ) (s : Text) → c ≢ b'%' → unescape (c ∷ s) ≡ c ∷ unescape s
unfolding unescape
unescape-unit c [] h = refl
unescape-unit c (d ∷ []) h = refl
unescape-unit c (d ∷ e ∷ s) h = ground arith

read_one :
    (c : ℕ) (bs : List ℕ) → c < 0x80 → read_utf8 0 0 (c ∷ bs) ≡ prepend (units c) (read_utf8 0 0 bs)
unfolding read_utf8
read_one c bs h =
    let e1 : ltb c 0x80 ≡ true = ground arith in
    let e2 : ltb c 0x10000 ≡ true = ground arith in rw (e1, e2) refl

read_two :
    (c : ℕ) (bs : List ℕ)
    → 0x80 ≤ c
    → c < 0x800
    → read_utf8 0 0 ((0xc0 + c / 64) ∷ (0x80 + c % 64) ∷ bs) ≡ prepend (units c) (read_utf8 0 0 bs)
unfolding read_utf8
read_two c bs l h =
    let e1 : ltb (0xc0 + c / 64) 0x80 ≡ false = ground arith in
    let e2 : ltb (0xc0 + c / 64) 0xe0 ≡ true = ground arith in
    let e3 : (0xc0 + c / 64 - 0xc0) * 64 + (0x80 + c % 64 - 0x80) ≡ c = omega arith in
    rw (e1, e2, e3) refl

read_three :
    (c : ℕ) (bs : List ℕ)
    → 0x800 ≤ c
    → c < 0x10000
    → read_utf8 0 0 ((0xe0 + c / 4096) ∷ (0x80 + c / 64 % 64) ∷ (0x80 + c % 64) ∷ bs)
      ≡ prepend (c ∷ []) (read_utf8 0 0 bs)
unfolding read_utf8
read_three c bs l h =
    let e1 : ltb (0xe0 + c / 4096) 0x80 ≡ false = ground arith in
    let e2 : ltb (0xe0 + c / 4096) 0xe0 ≡ false = ground arith in
    let e3 : ltb (0xe0 + c / 4096) 0xf0 ≡ true = ground arith in
    let e4 : ((0xe0 + c / 4096 - 0xe0) * 64 + (0x80 + c / 64 % 64 - 0x80)) * 64
          + (0x80 + c % 64 - 0x80)
        ≡ c =
      omega arith in
    let e5 : ltb c 0x10000 ≡ true = ground arith in rw (e1, e2, e3, e4, e5) refl

read_four :
    (c : ℕ) (bs : List ℕ)
    → 0x10000 ≤ c
    → c < 0x110000
    → read_utf8 0 0 (
        (0xf0 + c / 0x40000) ∷ (0x80 + c / 4096 % 64) ∷ (0x80 + c / 64 % 64) ∷ (0x80 + c % 64) ∷ bs)
      ≡ prepend
          ((0xd800 + (c - 0x10000) / 0x400) ∷ (0xdc00 + (c - 0x10000) % 0x400) ∷ [])
          (read_utf8 0 0 bs)
unfolding read_utf8
read_four c bs l h =
    let e1 : ltb (0xf0 + c / 0x40000) 0x80 ≡ false = ground arith in
    let e2 : ltb (0xf0 + c / 0x40000) 0xe0 ≡ false = ground arith in
    let e3 : ltb (0xf0 + c / 0x40000) 0xf0 ≡ false = ground arith in
    let e4 : (((0xf0 + c / 0x40000 - 0xf0) * 64 + (0x80 + c / 4096 % 64 - 0x80)) * 64
              + (0x80 + c / 64 % 64 - 0x80))
            * 64
          + (0x80 + c % 64 - 0x80)
        ≡ c =
      omega arith in
    let e5 : ltb c 0x10000 ≡ false = ground arith in rw (e1, e2, e3, e4, e5) refl

read_utf8-utf8_bytes :
    (c : ℕ) (bs : List ℕ)
    → c < 0x110000
    → read_utf8 0 0 (utf8_bytes c ++ bs) ≡ prepend (units c) (read_utf8 0 0 bs)
unfolding utf8_bytes
read_utf8-utf8_bytes c bs h = elim (Bool-cases (ltb c 0x80)) [
  | inl e ↦ rw e (read_one c bs (ground arith))
  | inr e ↦ elim (Bool-cases (ltb c 0x800)) [
    | inl f ↦ rw (e, f) (read_two c bs (ground arith) (ground arith))
    | inr f ↦ elim (Bool-cases (ltb c 0x10000)) [
      | inl g ↦ rw (e, f, g) (read_three c bs (ground arith) (ground arith))
      | inr g ↦ rw (e, f, g) (read_four c bs (ground arith) (ground arith))
    ]
  ]
]

unescape-utf8 :
    (bs : List ℕ) (s : Text)
    → All (λ b. b < 256) bs
    → unescape (flat_map percent bs ++ s) ≡ bs ++ unescape s
unfolding flat_map
unescape-utf8 [] s h = refl
unescape-utf8 (b ∷ bs) s (l, h) =
    rw
      (
        append_assoc (percent b) (flat_map percent bs) s,
        unescape-percent b (flat_map percent bs ++ s) l,
        unescape-utf8 bs s h,
      )
      refl

utf8_bytes-All : (c : ℕ) → c < 0x110000 → All (λ b. b < 256) (utf8_bytes c)
unfolding utf8_bytes
utf8_bytes-All c h = ground arith

-- The encoding of one code point is decoded to its units.
pub decode-utf8 :
    (c : ℕ) (s : Text) → c < 0x110000 → decode (utf8 c ++ s) ≡ prepend (units c) (decode s)
unfolding decode utf8
decode-utf8 c s h =
    rw (unescape-utf8 (utf8_bytes c) s (utf8_bytes-All c h)) (read_utf8-utf8_bytes c (unescape s) h)

below_0x80 : (c : ℕ) → is_unreserved c ≡ true → c < 0x80
unfolding is_unreserved
below_0x80 c h = ground arith

no_percent : (c : ℕ) → is_unreserved c ≡ true → c ≢ b'%'
unfolding is_unreserved
no_percent c h e = cc (ap is_unreserved e, h)

pub decode-unit :
    (c : ℕ) (s : Text) → is_unreserved c ≡ true → decode (c ∷ s) ≡ prepend (c ∷ []) (decode s)
unfolding decode
decode-unit c s h =
    let small : ltb c 0x10000 ≡ true = ground (arith, below_0x80 c h) in
    rw (unescape-unit c s (no_percent c h))
      (read_one c (unescape s) (below_0x80 c h) ∙ rw small refl)

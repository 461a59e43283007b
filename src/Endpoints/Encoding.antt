-- ===== src/Endpoints/Encoding.antt =====
-- `encodeURIComponent` of the language, which endpoints.ts calls `e`.
pub mod Decoding
pub mod Inverse
use forgequeue.Common.{
  ℕ, ◌+◌, ◌-◌, ◌*◌, ◌/◌, ◌%◌, ◌<◌, ◌≡◌, ◌≢◌, ap, sym, ◌∙◌, ◌⊎◌, inl, inr, Bool-cases, refl, Bool,
  true, ◌&&◌, ◌||◌, Option, none, some, List, [], ◌∷◌, ◌++◌, Text, arith, leb, ltb, ◌==◌,
  if◌then◌else◌, All, All-append,
}
use mathlib.Core.Option.{some-injective}
use mathlib.Core.Path.{subst}

-- The characters that stay: letters, digits and `- _ . ! ~ * ' ( )`.
unfoldable pub is_unreserved : ℕ → Bool
is_unreserved c =
    leb b'A' c && leb c b'Z'
    || leb b'a' c && leb c b'z'
    || leb b'0' c && leb c b'9'
    || c == b'-'
    || c == b'_'
    || c == b'.'
    || c == b'!'
    || c == b'~'
    || c == b'*'
    || c == 39
    || c == b'('
    || c == b')'

unfoldable pub hex_digit : ℕ → ℕ
hex_digit n = if ltb n 10 then b'0' + n else b'A' + (n - 10)

unfoldable pub percent : ℕ → Text
percent b = b'%' ∷ hex_digit (b / 16 % 16) ∷ hex_digit (b % 16) ∷ []

-- The UTF-8 bytes of a code point, each written `%XX`.
unfoldable pub flat_map : (ℕ → Text) → List ℕ → Text
flat_map f [] = []
flat_map f (x ∷ xs) = f x ++ flat_map f xs

unfoldable pub utf8_bytes : ℕ → List ℕ
utf8_bytes c =
    if ltb c 0x80
    then c ∷ []
    else if ltb c 0x800
    then (0xc0 + c / 64) ∷ (0x80 + c % 64) ∷ []
    else if ltb c 0x10000
    then (0xe0 + c / 4096) ∷ (0x80 + c / 64 % 64) ∷ (0x80 + c % 64) ∷ []
    else (0xf0 + c / 0x40000) ∷ (0x80 + c / 4096 % 64) ∷ (0x80 + c / 64 % 64) ∷ (0x80 + c % 64) ∷ []

unfoldable pub utf8 : ℕ → Text
utf8 c = flat_map percent (utf8_bytes c)

pub data Kind : Type 0 where
  unreserved high low plain : Kind

unfoldable pub kind_of : ℕ → Kind
kind_of c =
    if is_unreserved c
    then unreserved
    else if leb 0xd800 c && leb c 0xdbff
    then high
    else if leb 0xdc00 c && leb c 0xdfff
    then low
    else plain

abbrev pub prepend : Text → Option Text → Option Text
prepend s none = none
prepend s (some t) = some (s ++ t)

-- Behind a high surrogate `h`, if there is one. A surrogate with no partner is a `URIError`.
unfoldable pub encode_from : Option ℕ → Text → Option Text
encode_from none [] = some []
encode_from (some h) [] = none
encode_from none (c ∷ s) = elim (kind_of c) [
  | unreserved ↦ prepend (c ∷ []) (encode_from none s)
  | high ↦ encode_from (some c) s
  | low ↦ none
  | plain ↦ prepend (utf8 c) (encode_from none s)
]
encode_from (some h) (c ∷ s) = elim (kind_of c) [
  | low ↦ prepend (utf8 (0x10000 + (h - 0xd800) * 0x400 + (c - 0xdc00))) (encode_from none s)
  | _ ↦ none
]

unfoldable pub encode : Text → Option Text
unfolding encode_from kind_of utf8 utf8_bytes flat_map percent hex_digit
encode s = encode_from none s

-- A unit that no URL reads as a separator.
abbrev pub IsInert : ℕ → Type 0
IsInert c = (c ≢ b'/') × (c ≢ b'?') × (c ≢ b'#') × (c ≢ b'&')

unreserved-IsInert : (c : ℕ) → is_unreserved c ≡ true → IsInert c
unfolding is_unreserved
unreserved-IsInert c h = (
  λ e. cc (ap is_unreserved e, h),
  λ e. cc (ap is_unreserved e, h),
  λ e. cc (ap is_unreserved e, h),
  λ e. cc (ap is_unreserved e, h),
)

hex_digit-IsInert : (n : ℕ) → n < 16 → IsInert (hex_digit n)
unfolding hex_digit
hex_digit-IsInert n h = ground arith

percent-IsInert : (b : ℕ) → All IsInert (percent b)
unfolding percent
percent-IsInert b = (
  omega arith,
  (hex_digit-IsInert (b / 16 % 16) (omega arith), (hex_digit-IsInert (b % 16) (omega arith), tt)),
)

percents-IsInert : (bs : List ℕ) → All IsInert (flat_map percent bs)
unfolding flat_map
percents-IsInert [] = tt
percents-IsInert (b ∷ bs) =
    All-append IsInert (percent b) (flat_map percent bs) (percent-IsInert b) (percents-IsInert bs)

utf8-IsInert : (c : ℕ) → All IsInert (utf8 c)
unfolding utf8
utf8-IsInert c = percents-IsInert (utf8_bytes c)

pub Kind-cases : (k : Kind) → (k ≡ unreserved) ⊎ (k ≡ high) ⊎ (k ≡ low) ⊎ (k ≡ plain)
Kind-cases unreserved = inl refl
Kind-cases high = inr (inl refl)
Kind-cases low = inr (inr (inl refl))
Kind-cases plain = inr (inr (inr refl))

pub kind_of-unreserved : (c : ℕ) → kind_of c ≡ unreserved → is_unreserved c ≡ true
unfolding kind_of
kind_of-unreserved c h = elim (Bool-cases (is_unreserved c)) [
  | inl e ↦ e
  | inr e ↦ absurd (ground arith)
]

pub none_ne_some : {t : Text} → none ≢ some t
none_ne_some h = cc

module _ (s : Text) (o : Option Text) (t : Text) (inert : All IsInert s) where
  -- A prefix of inert units keeps a text inert.
  prepend-IsInert : ((u : Text) → o ≡ some u → All IsInert u) → prepend s o ≡ some t → All IsInert t
  prepend-IsInert rest h = go o refl
    where
      go : (p : Option Text) → o ≡ p → All IsInert t
      go none e = absurd (cc (ap (prepend s) e, h))
      go (some u) e =
          subst (All IsInert) (some-injective _ _ (sym (ap (prepend s) e) ∙ h))
            (All-append IsInert s u inert (rest u e))

encode_from-IsInert : (hi : Option ℕ) (s t : Text) → encode_from hi s ≡ some t → All IsInert t
unfolding encode_from
encode_from-IsInert none [] t h = subst (All IsInert) (some-injective _ _ h) tt
encode_from-IsInert (some k) [] t h = absurd (cc)
encode_from-IsInert none (c ∷ s) t h = elim (Kind-cases (kind_of c)) [
  | inl e ↦
      prepend-IsInert (c ∷ []) (encode_from none s) t
        (unreserved-IsInert c (kind_of-unreserved c e), tt) (encode_from-IsInert none s)
        (rw (e, encode_from) at h)
  | inr (inl e) ↦ encode_from-IsInert (some c) s t (rw (e, encode_from) at h)
  | inr (inr (inl e)) ↦ absurd (none_ne_some (rw (e, encode_from) at h))
  | inr (inr (inr e)) ↦
      prepend-IsInert (utf8 c) (encode_from none s) t (utf8-IsInert c) (encode_from-IsInert none s)
        (rw (e, encode_from) at h)
]
encode_from-IsInert (some k) (c ∷ s) t h = elim (Kind-cases (kind_of c)) [
  | inr (inr (inl e)) ↦
      prepend-IsInert (utf8 (0x10000 + (k - 0xd800) * 0x400 + (c - 0xdc00))) (encode_from none s) t
        (utf8-IsInert (0x10000 + (k - 0xd800) * 0x400 + (c - 0xdc00))) (encode_from-IsInert none s)
        (rw (e, encode_from) at h)
  | inl e ↦ absurd (none_ne_some (rw (e, encode_from) at h))
  | inr (inl e) ↦ absurd (none_ne_some (rw (e, encode_from) at h))
  | inr (inr (inr e)) ↦ absurd (none_ne_some (rw (e, encode_from) at h))
]

-- Whatever the text, what `encodeURIComponent` makes of it holds no separator of a URL.
pub encode-IsInert : (s t : Text) → encode s ≡ some t → All IsInert t
unfolding encode
encode-IsInert s t h = encode_from-IsInert none s t h

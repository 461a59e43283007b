-- ===== src/Endpoints/Encoding/Inverse.antt =====
-- `encodeURIComponent`: the decoding of a server gives back the text, pairs of surrogates included.
use forgequeue.Common.{
  ℕ, ◌+◌, ◌-◌, ◌*◌, ◌/◌, ◌%◌, ◌<◌, ◌≤◌, ◌≡◌, sym, inl, inr, refl, false, Option, none, some, [],
  ◌∷◌, ◌++◌, Text, arith, ltb, All,
}
use mathlib.Core.Option.{some-injective}
use forgequeue.Endpoints.Encoding.{
  utf8, high, low, kind_of, Kind-cases, prepend, encode_from, encode, kind_of-unreserved,
  none_ne_some,
}
use mathlib.Core.Path.{subst}
use forgequeue.Endpoints.Encoding.Decoding.{IsUnit, units, decode, decode-unit, decode-utf8}

-- What `prepend` gives begins with what it prepends.
prepend_parts :
    (p : Text) (o : Option Text) (t : Text)
    → prepend p o ≡ some t
    → (u : Text) × (o ≡ some u) × (t ≡ p ++ u)
prepend_parts p none t h = absurd (cc)
prepend_parts p (some u) t h = (u, refl, sym (some-injective _ _ h))

abbrev with_high : Option ℕ → Text → Text
with_high none s = s
with_high (some h) s = h ∷ s

abbrev IsHigh : Option ℕ → Type 0
IsHigh none = Unit
IsHigh (some h) = (0xd800 ≤ h) × (h < 0xdc00)

kind_of-high : (c : ℕ) → kind_of c ≡ high → (0xd800 ≤ c) × (c < 0xdc00)
unfolding kind_of
kind_of-high c e = ground arith

kind_of-low : (c : ℕ) → kind_of c ≡ low → (0xdc00 ≤ c) × (c < 0xe000)
unfolding kind_of
kind_of-low c e = ground arith

units_of_plain : (c : ℕ) → IsUnit c → units c ≡ c ∷ []
units_of_plain c h = ground arith

units_of_pair :
    (h c : ℕ)
    → (0xd800 ≤ h) × (h < 0xdc00)
    → (0xdc00 ≤ c) × (c < 0xe000)
    → units (0x10000 + (h - 0xd800) * 0x400 + (c - 0xdc00)) ≡ h ∷ c ∷ []
units_of_pair h c i l =
    let n = 0x10000 + (h - 0xd800) * 0x400 + (c - 0xdc00) in
    let e1 : ltb n 0x10000 ≡ false = ground arith in
    let e2 : 0xd800 + (n - 0x10000) / 0x400 ≡ h = omega arith in
    let e3 : 0xdc00 + (n - 0x10000) % 0x400 ≡ c = omega arith in rw (e1, e2, e3) refl

decode_nothing : decode [] ≡ some []
unfolding decode
decode_nothing = refl

decode-encode_from :
    (hi : Option ℕ) (s t : Text)
    → IsHigh hi
    → All IsUnit s
    → encode_from hi s ≡ some t
    → decode t ≡ some (with_high hi s)
unfolding encode_from
decode-encode_from none [] t i a h =
    subst (λ t. decode t ≡ some []) (some-injective _ _ h) decode_nothing
decode-encode_from (some k) [] t i a h = absurd (cc)
decode-encode_from none (c ∷ s) t i (ac, a) h = elim (Kind-cases (kind_of c)) [
  | inl e ↦
      let (u, eu, et) = prepend_parts (c ∷ []) (encode_from none s) t (rw (e, encode_from) at h) in
      rw (et, decode-unit c u (kind_of-unreserved c e), decode-encode_from none s u tt a eu) refl
  | inr (inl e) ↦ decode-encode_from (some c) s t (kind_of-high c e) a (rw (e, encode_from) at h)
  | inr (inr (inl e)) ↦ absurd (none_ne_some (rw (e, encode_from) at h))
  | inr (inr (inr e)) ↦
      let (u, eu, et) = prepend_parts (utf8 c) (encode_from none s) t (rw (e, encode_from) at h) in
      rw
        (
          et,
          decode-utf8 c u (omega arith),
          decode-encode_from none s u tt a eu,
          units_of_plain c ac,
        )
        refl
]
decode-encode_from (some k) (c ∷ s) t i (ac, a) h = elim (Kind-cases (kind_of c)) [
  | inr (inr (inl e)) ↦
      let n = 0x10000 + (k - 0xd800) * 0x400 + (c - 0xdc00) in
      let l = kind_of-low c e in
      let (u, eu, et) = prepend_parts (utf8 n) (encode_from none s) t (rw (e, encode_from) at h) in
      rw
        (
          et,
          decode-utf8 n u (omega arith),
          decode-encode_from none s u tt a eu,
          units_of_pair k c i l,
        )
        refl
  | inl e ↦ absurd (none_ne_some (rw (e, encode_from) at h))
  | inr (inl e) ↦ absurd (none_ne_some (rw (e, encode_from) at h))
  | inr (inr (inr e)) ↦ absurd (none_ne_some (rw (e, encode_from) at h))
]

-- What `encodeURIComponent` makes of a string of UTF-16 units is decoded to that string.
pub decode-encode : (s t : Text) → All IsUnit s → encode s ≡ some t → decode t ≡ some s
unfolding encode
decode-encode s t a h = decode-encode_from none s t tt a h

-- ===== src/ErrorCapture/Causes.antt =====
-- error-capture.ts: the loop of `describeError` over errors as objects, whose chain of causes may come back
-- to an error that it has passed.
use mathlib.Core.List.{append-nil, append_assoc}
use forgequeue.Common.{
  true, false, ℕ, zero, suc, ◌+◌, ◌≤◌, ◌<◌, ◌==◌, ◌≡◌, ◌∙◌, refl, sym, ap, arith, Option, none,
  some, List, [], ◌∷◌, ◌++◌, Text, txt, ltb, if◌then◌else◌, Option-cases, inl, inr, length,
}
use forgequeue.ErrorCapture.{
  Thrown, an_error, caused, a_text, other, part_of, parts_of, parts_of_bound, depth_limit,
}

-- A value that may be thrown: an error by the name of its object, a string, or anything else.
pub data Value : Type 0 where
  object : ℕ → Value
  string stringified : Text → Value

-- The object of an error.
pub record ErrorObject : Type 0 where
  pub stack : Option Text
  pub name : Text
  pub message : Text
  pub status : Option ℕ
  pub cause : Option Value

abbrev pub Errors : Type 0
Errors = ℕ → ErrorObject

-- `depth === 0 ? "" : "caused by: "`
abbrev pub label_at : ℕ → Text
label_at depth = if depth == 0 then [] else txt "caused by: "

module _ (errors : Errors) where
  -- The loop, on fuel; `none` if that runs out.
  unfoldable pub describe_loop : ℕ → ℕ → Option Value → List Text → Option (List Text)
  unfolding part_of
  describe_loop zero depth current parts = none
  describe_loop (suc fuel) depth none parts = some parts
  describe_loop (suc fuel) depth (some (string t)) parts =
      if ltb depth depth_limit then some (parts ++ t ∷ []) else some parts
  describe_loop (suc fuel) depth (some (stringified t)) parts =
      if ltb depth depth_limit then some (parts ++ t ∷ []) else some parts
  describe_loop (suc fuel) depth (some (object i)) parts =
      let o = errors i in
      let part = part_of (label_at depth) o.stack o.name o.message o.status in
      let rest = describe_loop fuel (depth + 1) o.cause (parts ++ part ∷ []) in
      if ltb depth depth_limit then rest else some parts

  -- The error as a tree, followed for so many causes; the next one is left off.
  unfoldable pub unroll : ℕ → Value → Thrown
  unroll k (string t) = a_text t
  unroll k (stringified t) = other t
  unroll zero (object i) = let o = errors i in an_error o.stack o.name o.message o.status
  unroll (suc k) (object i) =
      let o = errors i in
      elim o.cause [
        | none ↦ an_error o.stack o.name o.message o.status
        | some c ↦ caused o.stack o.name o.message o.status (unroll k c)
      ]

  loop_none :
      (fuel depth : ℕ) (parts : List Text)
      → 0 < fuel
      → describe_loop fuel depth none parts ≡ some parts
  unfolding describe_loop
  loop_none zero depth parts h = absurd (omega arith)
  loop_none (suc fuel) depth parts h = refl

  loop_end :
      (fuel depth : ℕ) (v : Value) (parts : List Text)
      → 0 < fuel
      → ltb depth depth_limit ≡ false
      → describe_loop fuel depth (some v) parts ≡ some parts
  unfolding describe_loop
  loop_end zero depth v parts h e = absurd (omega arith)
  loop_end (suc fuel) depth (object i) parts h e = rw e refl
  loop_end (suc fuel) depth (string t) parts h e = rw e refl
  loop_end (suc fuel) depth (stringified t) parts h e = rw e refl

  abbrev part_at : ℕ → ℕ → Text
  part_at depth i = let o = errors i in part_of (label_at depth) o.stack o.name o.message o.status

  loop_round :
      (fuel depth i : ℕ) (parts : List Text)
      → ltb depth depth_limit ≡ true
      → describe_loop (suc fuel) depth (some (object i)) parts
        ≡ describe_loop fuel (depth + 1) (errors i).cause (parts ++ part_at depth i ∷ [])
  unfolding describe_loop
  loop_round fuel depth i parts e = rw e refl

  -- The parts of an error's tree, by its cause.
  parts_of-unroll :
      (r k depth i : ℕ) (o : Option Value)
      → (errors i).cause ≡ o
      → parts_of (suc r) (label_at depth) (some (unroll (suc k) (object i)))
        ≡ part_at depth i
          ∷ elim o [ none ↦ [] | some c ↦ parts_of r (txt "caused by: ") (some (unroll k c)) ]
  unfolding parts_of unroll
  parts_of-unroll r k depth i none e = rw (e, unroll) refl
  parts_of-unroll r k depth i (some c) e = rw (e, unroll) refl

  label_later : (depth : ℕ) → label_at (depth + 1) ≡ txt "caused by: "
  label_later depth = ground arith

  -- What is left of the loop after some rounds.
  describe_loop-parts_of :
      (r fuel depth k : ℕ) (v : Value) (parts : List Text)
      → depth + r ≡ 5
      → r < fuel
      → r ≤ k
      → describe_loop fuel depth (some v) parts
        ≡ some (parts ++ parts_of r (label_at depth) (some (unroll k v)))
  unfolding parts_of
  describe_loop-parts_of zero fuel depth k v parts d f h =
      loop_end fuel depth v parts (omega (arith, f)) (ground (arith, d))
      ∙ ap some (sym (append-nil parts))
  describe_loop-parts_of (suc r) zero depth k v parts d f h = absurd (omega (arith, f))
  describe_loop-parts_of (suc r) (suc fuel) depth zero v parts d f h = absurd (omega (arith, h))
  describe_loop-parts_of (suc r) (suc fuel) depth (suc k) (string t) parts d f h =
      unfold describe_loop unroll in ground (arith, d)
  describe_loop-parts_of (suc r) (suc fuel) depth (suc k) (stringified t) parts d f h =
      unfold describe_loop unroll in ground (arith, d)
  describe_loop-parts_of (suc r) (suc fuel) depth (suc k) (object i) parts d f h =
      loop_round fuel depth i parts (ground (arith, d)) ∙ elim (Option-cases (errors i).cause) [
        | inl e ↦
            ap (λ o. describe_loop fuel (depth + 1) o (parts ++ part_at depth i ∷ [])) e
            ∙ loop_none fuel (depth + 1) (parts ++ part_at depth i ∷ []) (omega (arith, f))
            ∙ ap (λ (t : List Text). some (parts ++ t)) (sym (parts_of-unroll r k depth i none e))
        | inr (c, e) ↦
            ap (λ o. describe_loop fuel (depth + 1) o (parts ++ part_at depth i ∷ [])) e
            ∙ describe_loop-parts_of r fuel (depth + 1) k c (parts ++ part_at depth i ∷ [])
                (omega (arith, d)) (omega (arith, f)) (omega (arith, h))
            ∙ ap some (append_assoc parts (part_at depth i ∷ []) _)
            ∙ ap (λ (t : List Text). some (parts ++ t))
                (ap (λ l. part_at depth i ∷ parts_of r l (some (unroll k c))) (label_later depth)
                  ∙ sym (parts_of-unroll r k depth i (some c) e))
      ]

  -- The loop of `describeError` ends in at most 6 tests of its condition, also where the causes come back
  -- to an error that was described already; it makes at most 5 parts, and they are those of the error
  -- followed for 5 causes or any larger number of them.
  pub describe_loop_ends :
      (fuel k : ℕ) (v : Value)
      → 5 < fuel
      → 5 ≤ k
      → (describe_loop fuel 0 (some v) [] ≡ some (parts_of depth_limit [] (some (unroll k v))))
        × (length (parts_of depth_limit [] (some (unroll k v))) ≤ 5)
  describe_loop_ends fuel k v f h =
      (describe_loop-parts_of 5 fuel 0 k v [] refl f h, parts_of_bound 5 [] (some (unroll k v)))

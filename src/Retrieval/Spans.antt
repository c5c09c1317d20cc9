-- ===== src/Retrieval/Spans.antt =====
-- `_merge_spans`: the spans of an excerpt, sorted and merged where they overlap.
use Prim.Native.Nat.{max}
use membox.Base.{
  ℕ, ◌≤◌, ◌<◌, Bool, true, ◌&&◌, ◌||◌, List, [], ◌∷◌, ◌==◌, leb, ltb, if◌then◌else◌, any_of, arith,
  ◌≡◌, refl, ◌∙◌, Bool-cases, inl, inr,
}

abbrev pub Span : Type 0
Span = ℕ × ℕ

-- `a <= b`, on pairs.
abbrev pub span_le : Span → Span → Bool
span_le a b = ltb a.0 b.0 || (a.0 == b.0 && leb a.1 b.1)

-- `sorted(spans)`
unfoldable pub insert_span : Span → List Span → List Span
insert_span a [] = a ∷ []
insert_span a (b ∷ rest) =
    let later = insert_span a rest in if span_le a b then a ∷ b ∷ rest else b ∷ later

unfoldable pub sort_spans : List Span → List Span
unfolding insert_span
sort_spans [] = []
sort_spans (a ∷ rest) = insert_span a (sort_spans rest)

-- The loop, with `merged[-1]` in hand.
unfoldable pub merge_from : Span → List Span → List Span
merge_from last [] = last ∷ []
merge_from last (span ∷ rest) =
    let joined = merge_from (last.0, max last.1 span.1) rest in
    let apart = merge_from span rest in if leb span.0 last.1 then joined else last ∷ apart

unfoldable pub merge_sorted : List Span → List Span
unfolding merge_from
merge_sorted [] = []
merge_sorted (span ∷ rest) = merge_from span rest

unfoldable pub merge_spans : List Span → List Span
unfolding sort_spans merge_sorted
merge_spans spans = merge_sorted (sort_spans spans)

-- The position i is in the span.
abbrev pub inside : ℕ → Span → Bool
inside i a = leb a.0 i && ltb i a.1

-- The starts do not decrease.
abbrev starts_from : ℕ → List Span → Bool
starts_from start [] = true
starts_from start (a ∷ rest) = leb start a.0 && starts_from a.0 rest

inside-insert :
    (i : ℕ) (a : Span) (spans : List Span)
    → any_of (inside i) (insert_span a spans) ≡ (inside i a || any_of (inside i) spans)
unfolding insert_span
inside-insert i a [] = ground arith
inside-insert i a (b ∷ rest) = elim (Bool-cases (span_le a b)) [
  | inl before ↦ ground (arith, before)
  | inr after ↦ ground (arith, after, inside-insert i a rest)
]

inside-sort :
    (i : ℕ) (spans : List Span) → any_of (inside i) (sort_spans spans) ≡ any_of (inside i) spans
unfolding sort_spans
inside-sort i [] = refl
inside-sort i (a ∷ rest) = ground (arith, inside-insert i a (sort_spans rest), inside-sort i rest)

starts_from-insert :
    (start : ℕ) (a : Span) (spans : List Span)
    → start ≤ a.0
    → starts_from start spans ≡ true
    → starts_from start (insert_span a spans) ≡ true
unfolding insert_span
starts_from-insert start a [] le h = ground arith
starts_from-insert start a (b ∷ rest) le h = elim (Bool-cases (span_le a b)) [
  | inl before ↦ ground (arith, before)
  | inr after ↦ ground (arith, after, starts_from-insert b.0 a rest)
]

starts_from-sort : (spans : List Span) → starts_from 0 (sort_spans spans) ≡ true
unfolding sort_spans
starts_from-sort [] = refl
starts_from-sort (a ∷ rest) =
    starts_from-insert 0 a (sort_spans rest) (omega arith) (starts_from-sort rest)

starts_from_mono :
    (a b : ℕ) (spans : List Span) → a ≤ b → starts_from b spans ≡ true → starts_from a spans ≡ true
starts_from_mono a b [] le h = refl
starts_from_mono a b (x ∷ rest) le h = ground arith

-- Two spans that touch cover what their union covers.
inside-join :
    (i : ℕ) (a b : Span)
    → a.0 ≤ b.0
    → b.0 ≤ a.1
    → inside i (a.0, max a.1 b.1) ≡ (inside i a || inside i b)
inside-join i a b le touch = grind arith

inside-merge :
    (i : ℕ) (last : Span) (rest : List Span)
    → starts_from last.0 rest ≡ true
    → any_of (inside i) (merge_from last rest) ≡ (inside i last || any_of (inside i) rest)
unfolding merge_from
inside-merge i last [] h = ground arith
inside-merge i last (span ∷ rest) h = elim (Bool-cases (leb span.0 last.1)) [
  | inl overlap ↦ ground (
    arith,
    overlap,
    inside-join i last span,
    starts_from_mono last.0 span.0 rest,
    inside-merge i (last.0, max last.1 span.1) rest,
  )
  | inr apart ↦ ground (arith, apart, inside-merge i span rest)
]

-- Each span starts after the end of the one before.
abbrev pub apart_from : ℕ → List Span → Bool
apart_from end [] = true
apart_from end (a ∷ rest) = ltb end a.0 && apart_from a.1 rest

abbrev pub apart : List Span → Bool
apart [] = true
apart (a ∷ rest) = apart_from a.1 rest

apart_from-merge :
    (end : ℕ) (last : Span) (rest : List Span)
    → end < last.0
    → apart_from end (merge_from last rest) ≡ true
unfolding merge_from
apart_from-merge end last [] h = ground arith
apart_from-merge end last (span ∷ rest) h = elim (Bool-cases (leb span.0 last.1)) [
  | inl overlap ↦ ground (arith, overlap, apart_from-merge end (last.0, max last.1 span.1) rest h)
  | inr gap ↦ ground (arith, gap, apart_from-merge last.1 span rest)
]

apart-merge : (last : Span) (rest : List Span) → apart (merge_from last rest) ≡ true
unfolding merge_from
apart-merge last [] = refl
apart-merge last (span ∷ rest) = elim (Bool-cases (leb span.0 last.1)) [
  | inl overlap ↦ ground (arith, overlap, apart-merge (last.0, max last.1 span.1) rest)
  | inr gap ↦ ground (arith, gap, apart_from-merge last.1 span rest)
]

merge_sorted-lem :
    (i : ℕ) (spans : List Span)
    → starts_from 0 spans ≡ true
    → (any_of (inside i) (merge_sorted spans) ≡ any_of (inside i) spans)
      × (apart (merge_sorted spans) ≡ true)
unfolding merge_sorted
merge_sorted-lem i [] h = (refl, refl)
merge_sorted-lem i (a ∷ rest) h = (ground (arith, inside-merge i a rest), apart-merge a rest)

-- The merged spans cover exactly the positions of the spans given, in any order, and each starts after
-- the end of the one before.
pub merge_spans-covers :
    (i : ℕ) (spans : List Span)
    → (any_of (inside i) (merge_spans spans) ≡ any_of (inside i) spans)
      × (apart (merge_spans spans) ≡ true)
unfolding merge_spans
merge_spans-covers i spans =
    let merged = merge_sorted-lem i (sort_spans spans) (starts_from-sort spans) in
    (merged.0 ∙ inside-sort i spans, merged.1)

-- ===== src/Retrieval/Anchors.antt =====
-- The terms of a query: distinct, within the limit, and safe inside the quotes of a MATCH expression.
use Prim.Native.Nat.{max}
use Prim.Native.Char.{code}
use Prim.Native.String
use Prim.Native.String.append.{nil as nil_append, cons as cons_append}
use membox.Base.{
  ℕ, ◌+◌, ◌≤◌, ◌<◌, String, Bool, true, false, not, ◌&&◌, ◌||◌, List, [], ◌∷◌, ◌++◌, leb,
  any_of-append, le→leb, all_of, length, length-append, str_eq, eq_iff, arith, ◌≡◌, refl,
  Bool-cases, inl, inr, ◌==◌,
}
use membox.Base.Text.{member, is_empty, is_space, split_from, split}
use membox.Retrieval.Terms.{
  collect, windows_of, runs, is_han, cjk_anchor_terms, is_fts_special, clean_query, fts_tokens,
}

-- No text occurs twice.
abbrev pub distinct : List String → Bool
distinct [] = true
distinct (t ∷ ts) = not (member t ts) && distinct ts

distinct-append :
    (ts : List String) (t : String)
    → distinct ts ≡ true
    → member t ts ≡ false
    → distinct (ts ++ t ∷ []) ≡ true
distinct-append [] t d m = refl
distinct-append (x ∷ ts) t d m = ground (
  arith,
  distinct-append ts t,
  any_of-append (λ y. str_eq y x) ts (t ∷ []),
  eq_iff t x,
  eq_iff x t,
)

distinct-collect :
    (limit : ℕ) (rest terms : List String)
    → distinct terms ≡ true
    → distinct (collect limit rest terms) ≡ true
unfolding collect
distinct-collect limit [] terms d = d
distinct-collect limit (t ∷ rest) terms d = elim (Bool-cases (member t terms)) [
  | inl old ↦ ground (arith, old, distinct-collect limit rest terms d)
  | inr new ↦ ground (
    arith,
    new,
    distinct-append terms t d new,
    distinct-collect limit rest (terms ++ t ∷ []) (distinct-append terms t d new),
  )
]

length-collect :
    (limit : ℕ) (rest terms : List String)
    → length terms < max 1 limit
    → length (collect limit rest terms) ≤ max 1 limit
unfolding collect
length-collect limit [] terms h = omega (arith, h)
length-collect limit (t ∷ rest) terms h = elim (Bool-cases (member t terms)) [
  | inl old ↦ ground (arith, old, length-collect limit rest terms h)
  | inr new ↦ elim (Bool-cases (leb limit (length terms + 1))) [
    | inl full ↦ ground (arith, new, full, length-append terms (t ∷ []))
    | inr more ↦ ground (
      arith,
      new,
      more,
      length-append terms (t ∷ []),
      length-collect limit rest (terms ++ t ∷ []),
    )
  ]
]

-- The anchor terms of a query are distinct, and no more than the limit, or one where the limit is 0.
pub cjk_anchor_terms-distinct :
    (min_len max_len limit : ℕ) (query : String)
    → (distinct (cjk_anchor_terms min_len max_len limit query)
        && leb (length (cjk_anchor_terms min_len max_len limit query)) (max 1 limit))
      ≡ true
unfolding cjk_anchor_terms
cjk_anchor_terms-distinct min_len max_len limit query =
    let found = windows_of min_len max_len (runs is_han query) in
    ground (
      arith,
      distinct-collect limit found [] refl,
      le→leb (length (collect limit found [])) (max 1 limit)
          (length-collect limit found [] (omega arith)),
    )

-- Characters that FTS5 reads as syntax, by code point: the double quote, `(`, `)`, `*`, `,`, `.`,
-- `:`, `^`, `{` and `}`.
abbrev is_syntax : ℕ → Bool
is_syntax c =
    c == 34
    || c == 40
    || c == 41
    || c == 42
    || c == 44
    || c == 46
    || c == 58
    || c == 94
    || c == 123
    || c == 125

-- A tab, a line break or a blank.
abbrev is_gap : ℕ → Bool
is_gap c = c == 9 || c == 10 || c == 13 || c == 32

abbrev has : (ℕ → Bool) → String → Bool
has test String.[] = false
has test (String.◌∷◌ c s) = test (code c) || has test s

-- A text that is safe as an FTS5 phrase: not empty, one word, and without syntax.
abbrev pub is_phrase : String → Bool
is_phrase t = not (is_empty t) && not (has is_syntax t) && not (has is_gap t)

has-append :
    (test : ℕ → Bool) (s t : String) → has test (String.◌++◌ s t) ≡ (has test s || has test t)
has-append test String.[] t = ground (arith, nil_append t)
has-append test (String.◌∷◌ c s) t = ground (arith, cons_append c s t, has-append test s t)

is_syntax-special : (c : ℕ) → is_fts_special c ≡ false → is_syntax c ≡ false
unfolding is_fts_special
is_syntax-special c h = ground (arith, h)

is_gap-space : (c : ℕ) → is_space c ≡ false → is_gap c ≡ false
unfolding is_space
is_gap-space c h = ground (arith, h)

has_syntax-clean : (s : String) → has is_syntax (clean_query s) ≡ false
unfolding clean_query
has_syntax-clean String.[] = refl
has_syntax-clean (String.◌∷◌ c s) = elim (Bool-cases (is_fts_special (code c))) [
  | inl special ↦
      ground (arith, special, has_syntax-clean s, has-append is_syntax " " (clean_query s))
  | inr plain ↦ ground (arith, plain, has_syntax-clean s, is_syntax-special (code c) plain)
]

is_phrase-split_from :
    (word s : String)
    → has is_syntax word ≡ false
    → has is_gap word ≡ false
    → has is_syntax s ≡ false
    → all_of is_phrase (split_from word s) ≡ true
unfolding split_from
is_phrase-split_from word String.[] w g h = elim (Bool-cases (is_empty word)) [
  | inl e ↦ ground (arith, e)
  | inr e ↦ ground (arith, e, w, g)
]
is_phrase-split_from word (String.◌∷◌ c s) w g h = elim (Bool-cases (is_space (code c))) [
  | inl space ↦ ground (arith, space, is_phrase-split_from String.[] s refl refl)
  | inr letter ↦ ground (
    arith,
    letter,
    is_gap-space (code c) letter,
    has-append is_syntax word (String.◌∷◌ c String.[]),
    has-append is_gap word (String.◌∷◌ c String.[]),
    is_phrase-split_from (String.◌++◌ word (String.◌∷◌ c String.[])) s,
  )
]

-- Every token that `fts5_or_query` puts between quotes is not empty, has no tab, line break or blank,
-- and has no double quote, parenthesis, brace, `*`, `,`, `.`, `:` or `^`.
pub fts_tokens-plain : (query : String) → all_of is_phrase (fts_tokens query) ≡ true
unfolding fts_tokens split
fts_tokens-plain query =
    is_phrase-split_from String.[] (clean_query query) refl refl (has_syntax-clean query)

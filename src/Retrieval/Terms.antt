-- ===== src/Retrieval/Terms.antt =====
-- core/store/fts.py, and the anchor terms of core/store/retrieval.py: what a query is searched and
-- scored by.
use Prim.Native.Char.{code}
use Prim.Native.String
use membox.Base.{
  ℕ, zero, suc, ◌+◌, ◌-◌, String, Bool, false, not, ◌&&◌, ◌||◌, Option, none, some, List, [], ◌∷◌,
  ◌++◌, ◌==◌, leb, ltb, if◌then◌else◌, any_of, map, select, length, str_eq,
}
use membox.Base.Text.{Lowering, is_empty, contains, concat, join, split, text_length, member}

-- `s[:n]`, `s[n:]` and `s[start:end]`, by characters.
unfoldable pub take_text : ℕ → String → String
take_text zero s = String.[]
take_text (suc n) String.[] = String.[]
take_text (suc n) (String.◌∷◌ c s) = String.◌∷◌ c (take_text n s)

unfoldable pub drop_text : ℕ → String → String
drop_text zero s = s
drop_text (suc n) String.[] = String.[]
drop_text (suc n) (String.◌∷◌ c s) = drop_text n s

unfoldable pub slice_text : ℕ → ℕ → String → String
unfolding take_text drop_text
slice_text start end s = take_text (end - start) (drop_text start s)

-- The class `[\u3400-\u9fff]`.
unfoldable pub is_han : ℕ → Bool
is_han c = leb 13312 c && leb c 40959

unfoldable pub contains_cjk : String → Bool
unfolding is_han
contains_cjk String.[] = false
contains_cjk (String.◌∷◌ c s) = is_han (code c) || contains_cjk s

-- The maximal runs of the characters that a class holds, after the run in hand: `findall` of `[…]+`.
unfoldable pub runs_from : (ℕ → Bool) → String → String → List String
unfolding is_empty
runs_from inside run String.[] = if is_empty run then [] else run ∷ []
runs_from inside run (String.◌∷◌ c s) =
    let apart = runs_from inside String.[] s in
    let longer = runs_from inside (String.◌++◌ run (String.◌∷◌ c String.[])) s in
    if inside (code c) then longer else if is_empty run then apart else run ∷ apart

unfoldable pub runs : (ℕ → Bool) → String → List String
unfolding runs_from
runs inside s = runs_from inside String.[] s

-- The windows of one size, from left to right: as many as are counted.
unfoldable pub windows : ℕ → ℕ → String → List String
unfolding take_text drop_text
windows size zero run = []
windows size (suc n) run = take_text size run ∷ windows size n (drop_text 1 run)

-- The sizes from max_len down to min_len; `count` is how many they are.
unfoldable pub windows_down : ℕ → ℕ → String → List String
unfolding windows text_length
windows_down size zero run = []
windows_down size (suc count) run =
    let smaller = windows_down (size - 1) count run in
    if ltb (text_length run) size
    then smaller
    else windows size (text_length run - size + 1) run ++ smaller

unfoldable pub windows_of : ℕ → ℕ → List String → List String
unfolding windows_down
windows_of min_len max_len [] = []
windows_of min_len max_len (run ∷ rest) =
    windows_down max_len (max_len + 1 - min_len) run ++ windows_of min_len max_len rest

-- `if term not in seen: …; if len(terms) >= limit: return terms`
unfoldable pub collect : ℕ → List String → List String → List String
collect limit [] terms = terms
collect limit (term ∷ rest) terms =
    let full = leb limit (length terms + 1) in
    let more = collect limit rest (if member term terms then terms else terms ++ term ∷ []) in
    if member term terms then more else if full then terms ++ term ∷ [] else more

unfoldable pub cjk_anchor_terms : ℕ → ℕ → ℕ → String → List String
unfolding runs is_han windows_of collect
cjk_anchor_terms min_len max_len limit query =
    collect limit (windows_of min_len max_len (runs is_han query)) []

unfoldable pub cjk_trigram_terms : String → List String
unfolding cjk_anchor_terms
cjk_trigram_terms query = cjk_anchor_terms 3 3 64 query

-- The class of characters that `fts5_or_query` blanks.
unfoldable pub is_fts_special : ℕ → Bool
is_fts_special c =
    any_of (λ d. d == c)
      (34 ∷ 42 ∷ 94 ∷ 40 ∷ 41 ∷ 123 ∷ 125 ∷ 91 ∷ 93 ∷ 58 ∷ 44 ∷ 63 ∷ 33 ∷ 12290 ∷ 12289 ∷ 59 ∷ 46
        ∷ [])

unfoldable pub clean_query : String → String
unfolding is_fts_special
clean_query String.[] = String.[]
clean_query (String.◌∷◌ c s) =
    let rest = clean_query s in
    if is_fts_special (code c) then String.◌++◌ " " rest else String.◌∷◌ c rest

unfoldable pub fts5_query_from_terms : List String → String
fts5_query_from_terms [] = "\"\""
fts5_query_from_terms (term ∷ terms) =
    join " OR " (map (λ t. concat ("\"" ∷ t ∷ "\"" ∷ [])) (term ∷ terms))

-- The tokens of `cleaned.split()`, none of which is empty.
unfoldable pub fts_tokens : String → List String
unfolding clean_query split
fts_tokens query = split (clean_query query)

unfoldable pub fts5_or_query : String → String
unfolding fts_tokens fts5_query_from_terms
fts5_or_query query = fts5_query_from_terms (fts_tokens query)

abbrev pub lexical_stopwords : List String
lexical_stopwords =
    "about" ∷ "after" ∷ "are" ∷ "and" ∷ "core" ∷ "does" ∷ "for" ∷ "have" ∷ "into" ∷ "its" ∷ "main"
    ∷ "part" ∷ "projects" ∷ "project" ∷ "their" ∷ "the" ∷ "use" ∷ "uses" ∷ "using" ∷ "what"
    ∷ "which" ∷ "with" ∷ []

-- The class `[A-Za-z0-9_#.+/-]`.
unfoldable pub is_term_char : ℕ → Bool
is_term_char c =
    (leb 65 c && leb c 90)
    || (leb 97 c && leb c 122)
    || (leb 48 c && leb c 57)
    || c == 95
    || c == 35
    || c == 46
    || c == 43
    || c == 47
    || c == 45

-- `raw.strip("._/-")`
unfoldable pub is_edge_char : ℕ → Bool
is_edge_char c = c == 46 || c == 95 || c == 47 || c == 45

unfoldable pub lstrip_edges : String → String
unfolding is_edge_char
lstrip_edges String.[] = String.[]
lstrip_edges (String.◌∷◌ c s) =
    let rest = lstrip_edges s in if is_edge_char (code c) then rest else String.◌∷◌ c s

unfoldable pub rstrip_edges : String → String
unfolding is_edge_char is_empty
rstrip_edges String.[] = String.[]
rstrip_edges (String.◌∷◌ c s) =
    let rest = rstrip_edges s in
    if is_edge_char (code c) && is_empty rest then String.[] else String.◌∷◌ c rest

-- Three letters or more, and no stopword.
unfoldable pub is_anchor : String → Bool
is_anchor term = leb 3 (text_length term) && not (member term lexical_stopwords)

unfoldable pub lexical_anchor_terms : Lowering → ℕ → String → List String
unfolding runs is_term_char lstrip_edges rstrip_edges is_anchor collect
lexical_anchor_terms lower limit query =
    collect limit
      (select is_anchor
        (map (λ raw. rstrip_edges (lstrip_edges raw)) (runs is_term_char (lower query))))
      []

unfoldable pub sum_lengths : List String → ℕ
unfolding text_length
sum_lengths [] = 0
sum_lengths (term ∷ terms) = text_length term + sum_lengths terms

unfoldable pub lexical_row_score : Lowering → String → List String → ℕ
unfolding sum_lengths
lexical_row_score lower content terms =
    sum_lengths (select (λ term. contains term (lower content)) terms)

-- A matched term counts where it is no part of another one.
unfoldable pub cjk_content_score : String → List String → ℕ
unfolding sum_lengths
cjk_content_score content terms =
    let matched = select (λ term. contains term content) terms in
    sum_lengths (
      select
        (λ term. not (any_of (λ other. not (str_eq term other) && contains term other) matched))
        matched)

unfoldable pub cjk_row_score : Lowering → String → Option String → List String → ℕ
unfolding cjk_content_score
cjk_row_score lower content section terms =
    let score = cjk_content_score content terms in
    let title = lower (elim section [ none ↦ "" | some t ↦ t ]) in
    if ltb 0 score && (contains "current state" title || contains "当前" title)
    then score + 3
    else score

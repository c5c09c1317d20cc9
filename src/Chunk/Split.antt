-- ===== src/Chunk/Split.antt =====
-- `_split_paragraphs` and `_apply_max_tokens`: the parts of a section under the token limit.

use membox.Base.{
  ℕ, zero, suc, ◌+◌, String, not, ◌&&◌, Option, none, some, List, [], ◌∷◌, ◌++◌, leb, ltb,
  if◌then◌else◌, is_some, select, length,
}
use membox.Base.Text.{strip, is_empty, join, concat, show}
use membox.Chunk.Tokens.{est_tokens}
use membox.Chunk.Markdown.{Section, split_lines, fence_of, next_fence, sections_of}

-- `if current: paragraphs.append("\n".join(current))`
unfoldable pub close_paragraph : List String → List String → List String
close_paragraph [] paragraphs = paragraphs
close_paragraph (line ∷ lines) paragraphs = join "\n" (line ∷ lines) ∷ paragraphs

-- The paragraphs of the remaining lines, after the lines in hand.
unfoldable pub paragraphs_from : Option ℕ → List String → List String → List String
unfolding fence_of next_fence close_paragraph
paragraphs_from fence current [] = close_paragraph current []
paragraphs_from fence current (line ∷ lines) =
    let kept = paragraphs_from fence (current ++ line ∷ []) lines in
    let closed = close_paragraph current (paragraphs_from fence [] lines) in
    elim (fence_of line) [
      | some mark ↦ paragraphs_from (next_fence fence mark) (current ++ line ∷ []) lines
      | none ↦ if is_some fence then kept else if is_empty (strip line) then closed else kept
    ]

unfoldable pub split_paragraphs : String → List String
unfolding paragraphs_from split_lines
split_paragraphs body =
    select (λ p. not (is_empty (strip p))) (paragraphs_from none [] (split_lines body))

-- The greedy groups of the remaining paragraphs, after those in hand with their tokens.
unfoldable pub pack : ℕ → List String → ℕ → List String → List (List String)
unfolding est_tokens
pack max_tokens [] tokens [] = []
pack max_tokens (p ∷ current) tokens [] = (p ∷ current) ∷ []
pack max_tokens current tokens (para ∷ paras) =
    let para_tokens = est_tokens para in
    let flushed = current ∷ pack max_tokens (para ∷ []) para_tokens paras in
    let grown = pack max_tokens (current ++ para ∷ []) (tokens + para_tokens) paras in
    if ltb 0 (length current) && ltb max_tokens (tokens + para_tokens) then flushed else grown

unfoldable pub sub_title : Option String → ℕ → ℕ → String
unfolding concat show
sub_title none idx total = concat ("(" ∷ show idx ∷ "/" ∷ show total ∷ ")" ∷ [])
sub_title (some title) idx total = concat (title ∷ " (" ∷ show idx ∷ "/" ∷ show total ∷ ")" ∷ [])

unfoldable pub number_groups : Option String → ℕ → ℕ → List (List String) → List Section
unfolding sub_title
number_groups title idx total [] = []
number_groups title idx total (group ∷ groups) =
    (some (sub_title title idx total), join "\n\n" group)
    ∷ number_groups title (idx + 1) total groups

-- One group stands for the whole body, as does no paragraph at all.
unfoldable pub emit_groups : Section → List (List String) → List Section
unfolding number_groups
emit_groups section [] = section ∷ []
emit_groups section (group ∷ []) = section ∷ []
emit_groups (title, body) (g ∷ h ∷ groups) =
    number_groups title 1 (length (g ∷ h ∷ groups)) (g ∷ h ∷ groups)

unfoldable pub split_section : ℕ → Section → List Section
unfolding est_tokens split_paragraphs pack emit_groups
split_section max_tokens (title, body) =
    if leb (est_tokens body) max_tokens
    then (title, body) ∷ []
    else emit_groups (title, body) (pack max_tokens [] 0 (split_paragraphs body))

unfoldable pub apply_max_tokens : List Section → ℕ → List Section
unfolding split_section
apply_max_tokens [] max_tokens = []
apply_max_tokens (section ∷ sections) max_tokens =
    split_section max_tokens section ++ apply_max_tokens sections max_tokens

-- A limit that is not positive is `zero`, and turns the second pass off.
unfoldable pub chunk_markdown : String → ℕ → List Section
unfolding sections_of apply_max_tokens
chunk_markdown text zero = sections_of text
chunk_markdown text (suc max_tokens) = apply_max_tokens (sections_of text) (suc max_tokens)

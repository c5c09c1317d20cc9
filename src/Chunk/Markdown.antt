-- ===== src/Chunk/Markdown.antt =====
-- `chunk_markdown` up to the sections of a document: fences, headings and the loop over the lines.
use Prim.Native.Char.{code}
use Prim.Native.String
use text.Mathlib.Text.{starts_with}
use membox.Base.{
  ℕ, String, Bool, true, false, not, ◌||◌, Option, none, some, List, [], ◌∷◌, ◌++◌, ◌==◌,
  if◌then◌else◌, is_some,
}
use membox.Base.Text.{strip, is_space, is_empty, join}

-- `s.replace("\r\n", "\n").replace("\r", "\n")`
unfoldable pub normalise : String → String
normalise String.[] = String.[]
normalise (String.◌∷◌ c s) =
    let rest = normalise s in
    if code c == 13
    then (if starts_with s "\n" then rest else String.◌++◌ "\n" rest)
    else String.◌∷◌ c rest

-- `s.split("\n")` after the letters in hand.
unfoldable pub lines_from : String → String → List String
lines_from line String.[] = line ∷ []
lines_from line (String.◌∷◌ c s) =
    let next = lines_from String.[] s in
    let longer = lines_from (String.◌++◌ line (String.◌∷◌ c String.[])) s in
    if code c == 10 then line ∷ next else longer

unfoldable pub split_lines : String → List String
unfolding lines_from
split_lines s = lines_from String.[] s

-- `_FENCE_RE`: the character of the fence that a line opens or closes.
unfoldable pub fence_of : String → Option ℕ
fence_of line =
    if starts_with line "```" then some 96 else if starts_with line "~~~" then some 126 else none

-- The text of a level-2 heading after its two hashes.
unfoldable pub heading_rest : String → Option String
unfolding is_space is_empty
heading_rest String.[] = some String.[]
heading_rest (String.◌∷◌ c s) = if is_space (code c) then some (strip (String.◌∷◌ c s)) else none

unfoldable pub heading_after_hash : String → Option String
unfolding heading_rest
heading_after_hash String.[] = none
heading_after_hash (String.◌∷◌ c s) = if code c == 35 then heading_rest s else none

-- `_HEADING_RE`, and the stripped title.
unfoldable pub heading_of : String → Option String
unfolding heading_after_hash
heading_of String.[] = none
heading_of (String.◌∷◌ c s) = if code c == 35 then heading_after_hash s else none

-- Whether a line opens or closes a fence: the fence after it, of which `none` is no fence.
unfoldable pub next_fence : Option ℕ → ℕ → Option ℕ
next_fence none mark = some mark
next_fence (some opener) mark = if mark == opener then none else some opener

abbrev pub Section : Type 0
Section = Option String × String

-- The variables of the loop; `seen_heading` is true exactly after the first heading.
pub record Scan : Type 0 where
  pub raw_chunks : List Section
  pub current_title : Option String
  pub current_lines : List String
  pub fence : Option ℕ
  pub seen_heading : Bool

unfoldable pub body_of : List String → String
body_of lines = strip (join "\n" lines)

-- A named section is always emitted, a preamble only with content.
unfoldable pub flush : Scan → List Section
unfolding body_of
flush s =
    let body = body_of s.current_lines in
    if s.seen_heading || not (is_empty body)
    then s.raw_chunks ++ (s.current_title, body) ∷ []
    else s.raw_chunks

abbrev pub keep_line : String → Scan → Scan
keep_line line s = record s { current_lines = s.current_lines ++ line ∷ [] }

unfoldable pub scan_text : String → Option String → Scan → Scan
unfolding flush
scan_text line none s = keep_line line s
scan_text line (some title) s = record s {
  raw_chunks = flush s;
  current_title = some title;
  current_lines = [];
  seen_heading = true;
}

unfoldable pub scan_line : String → Scan → Scan
unfolding fence_of next_fence heading_of scan_text
scan_line line s = elim (fence_of line) [
  | some mark ↦ record (keep_line line s) { fence = next_fence s.fence mark }
  | none ↦ if is_some s.fence then keep_line line s else scan_text line (heading_of line) s
]

unfoldable pub scan_lines : List String → Scan → Scan
unfolding scan_line
scan_lines [] s = s
scan_lines (line ∷ lines) s = scan_lines lines (scan_line line s)

abbrev pub start : Scan
start = record {
  raw_chunks = [];
  current_title = none;
  current_lines = [];
  fence = none;
  seen_heading = false;
}

-- An empty document is one empty preamble.
unfoldable pub or_empty : List Section → List Section
or_empty [] = (none, String.[]) ∷ []
or_empty (section ∷ sections) = section ∷ sections

unfoldable pub sections_of : String → List Section
unfolding normalise split_lines scan_lines flush or_empty
sections_of text = or_empty (flush (scan_lines (split_lines (normalise text)) start))

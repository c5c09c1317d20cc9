-- ===== src/Chunk/Titles.antt =====
-- The titles of the sections are the level-2 headings outside fences.
use membox.Base.{ℕ, ◌≡◌, String, true, Option, none, some, List, [], ◌∷◌, if◌then◌else◌, is_some}
use membox.Chunk.Markdown.{Section, Scan, fence_of, next_fence, heading_of, flush, scan_line}

abbrev pub titles : List Section → List (Option String)
titles [] = []
titles (section ∷ sections) = section.0 ∷ titles sections

abbrev pub named : List String → List (Option String)
named [] = []
named (title ∷ list) = some title ∷ named list

-- The headings of the lines, read after the given fence: a fence hides what looks like a heading.
unfoldable pub headings : Option ℕ → List String → List String
headings fence [] = []
headings fence (line ∷ lines) = elim (fence_of line) [
  | some mark ↦ headings (next_fence fence mark) lines
  | none ↦ if is_some fence then headings fence lines else elim (heading_of line) [
    | none ↦ headings fence lines
    | some title ↦ title ∷ headings fence lines
  ]
]

-- How one line goes on.
data Line (line : String) (s : Scan) : Type 0 where
  plain :
      (s' : Scan)
      → scan_line line s ≡ s'
      → s'.raw_chunks ≡ s.raw_chunks
      → s'.current_title ≡ s.current_title
      → s'.seen_heading ≡ s.seen_heading
      → ((lines : List String) → headings s.fence (line ∷ lines) ≡ headings s'.fence lines)
      → Line line s
  titled :
      (title : String) (s' : Scan)
      → scan_line line s ≡ s'
      → s'.raw_chunks ≡ flush s
      → s'.current_title ≡ some title
      → s'.seen_heading ≡ true
      → ((lines : List String) → headings s.fence (line ∷ lines) ≡ title ∷ headings s'.fence lines)
      → Line line s

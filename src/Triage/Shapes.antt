-- ===== src/Triage/Shapes.antt =====
-- `_is_boilerplate_content`, `_has_any` and `_first_line`: the shape of a text.
use Prim.Native.Char.{Char, code}
use Prim.Native.String
use text.Mathlib.Text.{starts_with}
use membox.Base.{
  ℕ, zero, suc, ◌*◌, String, Bool, true, false, not, ◌&&◌, ◌||◌, Option, none, some, List, [], ◌∷◌,
  ltb, leb, ◌==◌, if◌then◌else◌, any_of, select, count_where, length,
}
use membox.Base.Text.{strip, lstrip, Folding, contains, is_empty, text_length, member}

-- Unicode case folding, and the regular expressions' classes of word characters and of digits.
pub record Characters : Type 0 where
  pub fold : Folding
  pub is_word : Char → Bool
  pub is_digit : Char → Bool

-- `s[:n]`
unfoldable pub text_take : ℕ → String → String
text_take zero s = String.[]
text_take (suc n) String.[] = String.[]
text_take (suc n) (String.◌∷◌ c s) = String.◌∷◌ c (text_take n s)

abbrev is_line_break : ℕ → Bool
is_line_break c =
    (leb 10 c && leb c 13) || (leb 28 c && leb c 30) || c == 133 || c == 8232 || c == 8233

-- The lines of a text after the letters in hand; `after_cr` says that the last one was a CR.
unfoldable pub lines_from : Bool → String → String → List String
unfolding is_empty
lines_from after_cr line String.[] = if is_empty line then [] else line ∷ []
lines_from after_cr line (String.◌∷◌ c s) =
    let skip = lines_from false line s in
    let next = lines_from (code c == 13) String.[] s in
    let longer = lines_from false (String.◌++◌ line (String.◌∷◌ c String.[])) s in
    if after_cr && code c == 10 && is_empty line
    then skip
    else if is_line_break (code c)
    then line ∷ next
    else longer

-- `s.splitlines()`
unfoldable pub splitlines : String → List String
unfolding lines_from
splitlines s = lines_from false String.[] s

module _ (chars : Characters) where
  -- `\d*\t` at the start, where `seen` says that a digit came before.
  unfoldable pub digits_and_tab : Bool → String → Bool
  digits_and_tab seen String.[] = false
  digits_and_tab seen (String.◌∷◌ c s) =
      let rest = digits_and_tab true s in if chars.is_digit c then rest else seen && code c == 9

  -- `^\s*\d+\t`
  unfoldable pub is_numbered_line : String → Bool
  unfolding digits_and_tab
  is_numbered_line line = digits_and_tab false (lstrip line)

  -- `^[\w.\-]+(?:/[\w.\-]+)*$`, where `seen` says that the part in hand is not empty.
  unfoldable pub is_path_body : Bool → String → Bool
  is_path_body seen String.[] = seen
  is_path_body seen (String.◌∷◌ c s) =
      let same = is_path_body true s in
      let next = is_path_body false s in
      if code c == 47
      then seen && next
      else (chars.is_word c || code c == 46 || code c == 45) && same

  abbrev is_alphanumeric : ℕ → Bool
  is_alphanumeric c = (leb 48 c && leb c 57) || (leb 65 c && leb c 90) || (leb 97 c && leb c 122)

  unfoldable pub all_alphanumeric : String → Bool
  all_alphanumeric String.[] = true
  all_alphanumeric (String.◌∷◌ c s) = is_alphanumeric (code c) && all_alphanumeric s

  -- What stands before and after the last dot.
  unfoldable pub split_last_dot : String → Option (String × String)
  split_last_dot String.[] = none
  split_last_dot (String.◌∷◌ c s) = elim (split_last_dot s) [
    | some (before, after) ↦ some (String.◌∷◌ c before, after)
    | none ↦ if code c == 46 then some (String.[], s) else none
  ]

  -- `^[\w.\-]+(?:/[\w.\-]+)*\.[A-Za-z0-9]{1,8}$` on a text without line breaks.
  unfoldable pub is_bare_path : String → Bool
  unfolding is_path_body all_alphanumeric split_last_dot
  is_bare_path s = elim (split_last_dot s) [
    | none ↦ false
    | some (before, after) ↦
        is_path_body false before
        && all_alphanumeric after
        && leb 1 (text_length after)
        && leb (text_length after) 8
  ]

  abbrev pub harness_scaffold_tags : List String
  harness_scaffold_tags =
      "<command-message>" ∷ "<command-name>" ∷ "<command-args>" ∷ "<local-command-stdout>"
      ∷ "<local-command-stderr>" ∷ []

  abbrev pub tool_input_keys : List String
  tool_input_keys =
      "\"file_path\"" ∷ "\"old_string\"" ∷ "\"new_string\"" ∷ "\"command\"" ∷ "\"content\""
      ∷ "\"todos\"" ∷ "\"pattern\"" ∷ []

  -- The fourth shape, of the lines that are not blank.
  unfoldable pub are_paths : List String → Bool
  unfolding is_bare_path
  are_paths lines =
      let total = length lines in
      let path_count =
        count_where (λ line. is_bare_path (strip line) && not (contains " " line)) lines in
      if total == 0
      then false
      else if total == 1
      then path_count == 1
      else if ltb total 5
      then path_count == total
      else leb (4 * total) (5 * path_count)

  unfoldable pub is_boilerplate_content : String → Bool
  unfolding splitlines is_numbered_line are_paths
  is_boilerplate_content text =
      not (is_empty text)
      && (any_of (λ tag. contains tag text) harness_scaffold_tags
          || (starts_with (lstrip text) "{" && any_of (λ key. contains key text) tool_input_keys)
          || leb 3 (count_where is_numbered_line (splitlines text))
          || are_paths (select (λ line. not (is_empty (strip line))) (splitlines text)))

  abbrev starts_with_word : String → Bool
  starts_with_word String.[] = false
  starts_with_word (String.◌∷◌ c s) = chars.is_word c

  unfoldable pub text_drop : ℕ → String → String
  text_drop zero s = s
  text_drop (suc n) String.[] = String.[]
  text_drop (suc n) (String.◌∷◌ c s) = text_drop n s

  -- `\bkeyword\b`, where `inside` says that a word character came before.
  unfoldable pub has_word_from : Bool → String → String → Bool
  unfolding text_drop
  has_word_from inside keyword String.[] = false
  has_word_from inside keyword (String.◌∷◌ c s) =
      let rest = has_word_from (chars.is_word c) keyword s in
      (not inside
        && starts_with (String.◌∷◌ c s) keyword
        && not (starts_with_word (text_drop (text_length keyword) (String.◌∷◌ c s))))
      || rest

  unfoldable pub has_keyword : String → String → Bool
  unfolding has_word_from
  has_keyword text keyword =
      if member keyword ("resolved" ∷ "decision" ∷ [])
      then has_word_from false keyword text
      else contains keyword text

  unfoldable pub has_any : String → List String → Bool
  unfolding has_keyword
  has_any text keywords = any_of (has_keyword text) keywords

unfoldable pub first_of_lines : List String → String → String
first_of_lines [] text = strip text
first_of_lines (line ∷ lines) text =
    let rest = first_of_lines lines text in if is_empty (strip line) then rest else strip line

unfoldable pub first_line : String → String
unfolding splitlines first_of_lines
first_line text = first_of_lines (splitlines text) text

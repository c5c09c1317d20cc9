-- ===== src/Tests/GateTests.antt =====
-- The gate on a rule that a user states, and on a dump of a tool.

use Prim.Native.Char.{code}
use membox.Base.{◌≤◌, ◌≡◌, refl, String, true, false, not, ◌&&◌, [], ◌∷◌, leb, ◌==◌, ◌||◌}
use membox.Base.Text.{casefold, contains, strip, lstrip, rstrip, is_space, is_empty, text_length}
use membox.Model.{UserIntent}
use membox.Triage.Shapes.{
  Characters, text_take, is_boilerplate_content, splitlines, lines_from, is_numbered_line,
  digits_and_tab, are_paths, is_bare_path, is_path_body, all_alphanumeric, split_last_dot, has_any,
  has_keyword, has_word_from, text_drop,
}
use membox.Triage.Gate.{
  GateDecision, triage_trace, activation_passes, decide, signals_of, verdict_of, verdict_by,
}
use membox.Triage.Decision.{triage_trace-activates, triage_trace-manual}

-- ASCII letters, digits and the underscore.
abbrev ascii : Characters
ascii = record {
  fold = λ c. String.◌∷◌ c String.[];
  is_word = λ c.
      (leb 48 (code c) && leb (code c) 57)
      || (leb 65 (code c) && leb (code c) 90)
      || (leb 97 (code c) && leb (code c) 122)
      || code c == 95;
  is_digit = λ c. leb 48 (code c) && leb (code c) 57;
}

abbrev rule : String
rule = "remember to keep the storage schema in one file"

abbrev decision : GateDecision
decision = triage_trace ascii rule "user" UserIntent.auto "message"

triage_trace-activates_example : activation_passes decision true ≡ (true && decision.should_extract)
triage_trace-activates_example =
    triage_trace-activates ascii rule "user" UserIntent.auto "message" true

triage_trace-manual_run :
    ((triage_trace ascii rule "user" UserIntent.manual "message").should_extract
      ≡ not (is_boilerplate_content ascii (text_take 4000 rule)))
    × (is_boilerplate_content ascii (text_take 4000 rule) && decision.should_extract ≡ false)
    × (decision.confidence_score ≤ 85)
triage_trace-manual_run = triage_trace-manual ascii rule "user" "message" UserIntent.auto

-- A rule of the user extracts, with the reason of one.
ruled : decision.reason ≡ "explicit_decision_or_rule"
unfolding triage_trace is_boilerplate_content text_take splitlines lines_from is_numbered_line
    digits_and_tab are_paths is_bare_path is_path_body all_alphanumeric split_last_dot decide
    signals_of verdict_of verdict_by has_any has_keyword has_word_from text_drop text_length
    contains casefold strip lstrip rstrip is_space is_empty
ruled = refl

path_is_boilerplate : is_boilerplate_content ascii "src/membox/cli/ingest.py" ≡ true
unfolding is_boilerplate_content splitlines lines_from is_numbered_line digits_and_tab are_paths
    is_bare_path is_path_body all_alphanumeric split_last_dot contains strip lstrip rstrip is_space
    is_empty text_length
path_is_boilerplate = refl

unresolved_is_no_word : has_any ascii "still unresolved" ("resolved" ∷ []) ≡ false
unfolding has_any has_keyword has_word_from text_drop text_length
unresolved_is_no_word = refl

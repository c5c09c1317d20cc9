-- ===== src/Base/Text.antt =====
-- What the program uses of `str`: strip, casefold, split, `in`, the join of texts and the decimal
-- digits of an f-string. Unicode case folding maps each character by a table, which is a parameter.
use Prim.Native.Nat.{◌/◌, ◌%◌, Ordering}
use Prim.Native.Char.{Char, code}
use Prim.Native.String
use Prim.Native.String.{compare}
use text.Mathlib.Text.{find?}
use membox.Base.Tests.{ltb, leb, ◌==◌, if◌then◌else◌, is_some}
use membox.Base.Lists.{any_of}
use text.Mathlib.Text.{◌==◌ as str_eq}
use Prim.Native.Nat.{◌+◌}
use Prim.Native.Nat.{ℕ, zero, suc}
use Prim.Native.String.{String}
use mathlib.Core.Bool.{Bool, true, false, ◌||◌, ◌&&◌}
use mathlib.Core.List.{List, [], ◌∷◌}

-- `str.isspace` of one character.
unfoldable pub is_space : ℕ → Bool
is_space c =
    (leb 9 c && leb c 13)
    || (leb 28 c && leb c 32)
    || c == 133
    || c == 160
    || c == 5760
    || (leb 8192 c && leb c 8202)
    || c == 8232
    || c == 8233
    || c == 8239
    || c == 8287
    || c == 12288

unfoldable pub is_empty : String → Bool
is_empty String.[] = true
is_empty (String.◌∷◌ c s) = false

-- `s.lstrip()`, `s.rstrip()`, `s.strip()`
unfoldable pub lstrip : String → String
lstrip String.[] = String.[]
lstrip (String.◌∷◌ c s) = let rest = lstrip s in if is_space (code c) then rest else String.◌∷◌ c s

unfoldable pub rstrip : String → String
rstrip String.[] = String.[]
rstrip (String.◌∷◌ c s) =
    let rest = rstrip s in
    if is_space (code c) && is_empty rest then String.[] else String.◌∷◌ c rest

unfoldable pub strip : String → String
unfolding lstrip rstrip is_space is_empty
strip s = rstrip (lstrip s)

-- `str.lower` of a whole text: a final sigma depends on the letters around it.
abbrev pub Lowering : Type 0
Lowering = String → String

-- The case-folding table: the text that stands for one character.
abbrev pub Folding : Type 0
Folding = Char → String

unfoldable pub casefold : Folding → String → String
casefold fold String.[] = String.[]
casefold fold (String.◌∷◌ c s) = String.◌++◌ (fold c) (casefold fold s)

-- `part in s`
unfoldable pub contains : String → String → Bool
contains part s = is_some (find? s part)

-- The order of SQLite's BINARY collation and of Python's `<=` on texts.
unfoldable pub text_le : String → String → Bool
text_le s t = elim (compare s t) [ Ordering.gt ↦ false | _ ↦ true ]

unfoldable pub digit : ℕ → String
digit zero = "0"
digit (suc zero) = "1"
digit (suc (suc zero)) = "2"
digit (suc (suc (suc zero))) = "3"
digit (suc (suc (suc (suc zero)))) = "4"
digit (suc (suc (suc (suc (suc zero))))) = "5"
digit (suc (suc (suc (suc (suc (suc zero)))))) = "6"
digit (suc (suc (suc (suc (suc (suc (suc zero))))))) = "7"
digit (suc (suc (suc (suc (suc (suc (suc (suc zero)))))))) = "8"
digit _ = "9"

-- `str(n)`; the fuel n is more than the number of its digits.
unfoldable pub show_digits : ℕ → ℕ → String
unfolding digit
show_digits zero n = digit n
show_digits (suc fuel) n =
    let rest = show_digits fuel (n / 10) in
    if ltb n 10 then digit n else String.◌++◌ rest (digit (n % 10))

unfoldable pub show : ℕ → String
unfolding show_digits
show n = show_digits n n

-- The pieces of an f-string, one after the other.
unfoldable pub concat : List String → String
concat [] = String.[]
concat (s ∷ rest) = String.◌++◌ s (concat rest)

-- `sep.join(parts)`
unfoldable pub join : String → List String → String
join sep [] = String.[]
join sep (s ∷ []) = s
join sep (s ∷ t ∷ rest) = String.◌++◌ s (String.◌++◌ sep (join sep (t ∷ rest)))

-- `len(s)`
unfoldable pub text_length : String → ℕ
text_length String.[] = 0
text_length (String.◌∷◌ c s) = 1 + text_length s

-- `s.replace(old, new)` of one character.
unfoldable pub replace_char : ℕ → String → String → String
replace_char old new String.[] = String.[]
replace_char old new (String.◌∷◌ c s) =
    let rest = replace_char old new s in
    if code c == old then String.◌++◌ new rest else String.◌∷◌ c rest

-- The words of a text after the letters in hand.
unfoldable pub split_from : String → String → List String
unfolding is_empty is_space
split_from word String.[] = if is_empty word then [] else word ∷ []
split_from word (String.◌∷◌ c s) =
    let fresh = split_from String.[] s in
    let rest = split_from (String.◌++◌ word (String.◌∷◌ c String.[])) s in
    if is_space (code c) then (if is_empty word then fresh else word ∷ fresh) else rest

-- `s.split()`
unfoldable pub split : String → List String
unfolding split_from
split s = split_from String.[] s

-- A set of texts, as a list of its members without repetition.
abbrev pub member : String → List String → Bool
member s set = any_of (λ t. str_eq t s) set

unfoldable pub set_of : List String → List String
set_of [] = []
set_of (s ∷ rest) = let set = set_of rest in if member s set then set else s ∷ set

unfoldable pub intersection : List String → List String → List String
intersection [] right = []
intersection (s ∷ left) right =
    let rest = intersection left right in if member s right then s ∷ rest else rest

unfoldable pub union : List String → List String → List String
union [] right = right
union (s ∷ left) right = let rest = union left right in if member s right then rest else s ∷ rest

-- `sorted(texts)`
unfoldable pub insert_sorted : String → List String → List String
unfolding text_le
insert_sorted s [] = s ∷ []
insert_sorted s (t ∷ rest) =
    let later = insert_sorted s rest in if text_le s t then s ∷ t ∷ rest else t ∷ later

unfoldable pub sorted : List String → List String
unfolding insert_sorted
sorted [] = []
sorted (s ∷ rest) = insert_sorted s (sorted rest)

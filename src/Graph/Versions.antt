-- ===== src/Graph/Versions.antt =====
-- The versions of a path only grow.
use Prim.Native.Nat.{max}
use membox.Base.{
  ℕ, ◌+◌, ◌≤◌, String, Bool, true, Option, none, some, List, [], ◌∷◌, ltb, if◌then◌else◌, arith,
  all_of, same_text, ◌≡◌, refl, ltb→lt, lt→ltb,
}
use membox.Graph.Tables.{Document, Store}
use membox.Graph.Documents.{later_version, max_version, next_version, next_version_for}

-- The document is of another path, or its version is below the bound.
abbrev pub below : String → ℕ → Document → Bool
below path bound d =
    if same_text d.source_path path
    then elim d.version [ none ↦ true | some v ↦ ltb v bound ]
    else true

ltb_mono : (v a b : ℕ) → a ≤ b → ltb v a ≡ true → ltb v b ≡ true
ltb_mono v a b le h = ground (arith, ltb→lt v a h, lt→ltb v b)

below_mono :
    (path : String) (a b : ℕ) (d : Document) → a ≤ b → below path a d ≡ true → below path b d ≡ true
below_mono path a b d le h = elim d.version [
  | none ↦ ground arith
  | some v ↦ ground (arith, ltb_mono v a b le)
]

all-below_mono :
    (path : String) (a b : ℕ) (documents : List Document)
    → a ≤ b
    → all_of (below path a) documents ≡ true
    → all_of (below path b) documents ≡ true
all-below_mono path a b [] le h = refl
all-below_mono path a b (d ∷ documents) le h =
    ground (arith, below_mono path a b d le, all-below_mono path a b documents le)

later-le : (v : Option ℕ) (w : Option ℕ) → next_version w ≤ next_version (later_version v w)
unfolding later_version next_version
later-le none w = omega arith
later-le (some v) none = omega arith
later-le (some v) (some w) = grind arith

later-lt : (v : ℕ) (w : Option ℕ) → ltb v (next_version (later_version (some v) w)) ≡ true
unfolding later_version next_version
later-lt v none = lt→ltb v (v + 1) (omega arith)
later-lt v (some w) = lt→ltb v (max v w + 1) (grind arith)

-- The step of `max_version` on a document of the path.
later-below :
    (path : String) (d : Document) (v w : Option ℕ) (documents : List Document)
    → d.version ≡ v
    → all_of (below path (next_version w)) documents ≡ true
    → all_of (below path (next_version (later_version v w))) (d ∷ documents) ≡ true
later-below path d none w documents e h = ground (
  arith,
  all-below_mono path (next_version w) (next_version (later_version none w)) documents
      (later-le none w) h,
)
later-below path d (some v) w documents e h = ground (
  arith,
  later-lt v w,
  all-below_mono path (next_version w) (next_version (later_version (some v) w)) documents
      (later-le (some v) w) h,
)

max_version-below :
    (path : String) (documents : List Document)
    → all_of (below path (next_version (max_version path documents))) documents ≡ true
unfolding max_version
max_version-below path [] = refl
max_version-below path (d ∷ documents) = ground (
  arith,
  max_version-below path documents,
  later-below path d d.version (max_version path documents) documents refl
      (max_version-below path documents),
)

module _ {V : Type 0} where
  -- The version that `next_version_for` gives a path is above every version stored under that path.
  pub next_version_for-fresh :
      (source_path : String) (s : Store V)
      → all_of (below source_path (next_version_for source_path s)) s.documents ≡ true
  unfolding next_version_for
  next_version_for-fresh source_path s = max_version-below source_path s.documents

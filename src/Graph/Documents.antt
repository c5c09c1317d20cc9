-- ===== src/Graph/Documents.antt =====
-- `next_version_for` and `insert_document`.
use Prim.Native.Nat.{max}
use membox.Base.{ℕ, ◌+◌, String, Option, none, some, List, [], ◌∷◌, ◌++◌, if◌then◌else◌, same_text}
use membox.Graph.Tables.{Document, Store}

-- `SELECT MAX(version) …`, which passes over NULL.
unfoldable pub later_version : Option ℕ → Option ℕ → Option ℕ
later_version none rest = rest
later_version (some v) none = some v
later_version (some v) (some w) = some (max v w)

unfoldable pub max_version : String → List Document → Option ℕ
unfolding later_version
max_version source_path [] = none
max_version source_path (d ∷ documents) =
    let rest = max_version source_path documents in
    if same_text d.source_path source_path then later_version d.version rest else rest

unfoldable pub next_version : Option ℕ → ℕ
next_version none = 1
next_version (some v) = v + 1

module _ {V : Type 0} where
  unfoldable pub next_version_for : String → Store V → ℕ
  unfolding max_version next_version
  next_version_for source_path s = next_version (max_version source_path s.documents)

  -- The version that is stored: the given one, or the next of the path if there is one.
  unfoldable pub version_for : Option String → Option ℕ → Store V → Option ℕ
  unfolding next_version_for
  version_for none version s = version
  version_for (some path) none s = some (next_version_for path s)
  version_for (some path) (some version) s = some version

  unfoldable pub insert_document :
      String
      → String
      → Option String
      → Option String
      → Option String
      → Option String
      → Option ℕ
      → Store V
      → ℕ × Store V
  unfolding version_for
  insert_document content source project source_path section doc_date version s = (
    s.next_document,
    record s {
      documents =
          s.documents
          ++ record {
            id = s.next_document;
            content = content;
            source = source;
            project = project;
            source_path = source_path;
            section = section;
            doc_date = doc_date;
            version = version_for source_path version s;
          }
            ∷ [];
      next_document = s.next_document + 1;
    },
  )

-- ===== src/Graph/Relations.antt =====
-- core/store/relations.py: the relations, their evidence, and the relations that a newer version of a
-- document supersedes.
use membox.Base.{
  ℕ, ◌+◌, String, Bool, false, not, ◌&&◌, ◌||◌, Option, none, some, List, [], ◌∷◌, ◌++◌, ltb, ◌==◌,
  if◌then◌else◌, str_eq, any_of, first_where, update_where, is_some, select, map, same_text,
}
use membox.Graph.Tables.{
  Document, Relation, Evidence, Store, Vectors, foreign_key, Result, ok, err, is_document,
  is_entity, is_relation, document_at, relation_at, blob_of,
}

abbrev pub same_evidence : ℕ → ℕ → Evidence → Bool
same_evidence rid doc_id e = e.relation_id == rid && e.doc_id == doc_id

-- A document of the path, at a version below the new one.
unfoldable pub older_document : String → ℕ → Document → Bool
older_document path version d =
    same_text d.source_path path && elim d.version [ none ↦ false | some v ↦ ltb v version ]

abbrev pub id_in : List ℕ → ℕ → Bool
id_in ids i = any_of (λ j. j == i) ids

module _ {V : Type 0} where
  abbrev pub same_triple : ℕ → ℕ → String → Relation V → Bool
  same_triple source_id target_id predicate r =
      r.source_id == source_id && r.target_id == target_id && str_eq r.predicate predicate

  -- `INSERT OR IGNORE INTO relations`, whose foreign keys are checked where a row is added.
  unfoldable pub add_relation : ℕ → ℕ → String → Store V → Result (Store V)
  add_relation source_id target_id predicate s =
      if any_of (same_triple source_id target_id predicate) s.relations
      then ok s
      else if any_of (is_entity source_id) s.entities && any_of (is_entity target_id) s.entities
      then ok (record s {
        relations =
            s.relations
            ++ record {
              id = s.next_relation;
              source_id = source_id;
              target_id = target_id;
              predicate = predicate;
              embedding = none;
              superseded_by = none;
            }
              ∷ [];
        next_relation = s.next_relation + 1;
      })
      else err foreign_key

  unfoldable pub fill_embedding : V → Relation V → Relation V
  fill_embedding blob r = record r {
    embedding = elim r.embedding [ none ↦ some blob | some stored ↦ some stored ];
  }

  unfoldable pub set_embedding : Option V → ℕ → Store V → Store V
  unfolding fill_embedding
  set_embedding none rid s = s
  set_embedding (some blob) rid s = record s {
    relations = update_where (is_relation rid) (fill_embedding blob) s.relations;
  }

  -- `INSERT OR IGNORE INTO relation_evidence`
  unfoldable pub add_evidence : ℕ → ℕ → Store V → Result (Store V)
  add_evidence rid doc_id s =
      if any_of (same_evidence rid doc_id) s.relation_evidence
      then ok s
      else if any_of (is_relation rid) s.relations && any_of (is_document doc_id) s.documents
      then ok (record s {
        relation_evidence =
            s.relation_evidence ++ record { relation_id = rid; doc_id = doc_id } ∷ [];
      })
      else err foreign_key

  -- The JOIN of a relation with its evidence in those documents.
  unfoldable pub has_older_evidence : String → ℕ → Store V → ℕ → Bool
  unfolding older_document
  has_older_evidence path version s rid =
      any_of
        (λ e.
          e.relation_id == rid
          && any_of (λ d. d.id == e.doc_id && older_document path version d) s.documents)
        s.relation_evidence

  -- `SELECT DISTINCT r.id …`, as a test of one relation.
  unfoldable pub is_superseded_sibling :
      ℕ → ℕ → String → ℕ → String → ℕ → Store V → Relation V → Bool
  unfolding has_older_evidence
  is_superseded_sibling source_id target_id predicate rid path version s r =
      r.source_id == source_id
      && str_eq r.predicate predicate
      && not (r.target_id == target_id)
      && not (is_some r.superseded_by)
      && not (r.id == rid)
      && has_older_evidence path version s r.id

  -- The rows selected, each updated under the same test of NULL.
  unfoldable pub mark_superseded : ℕ → ℕ → String → ℕ → String → ℕ → Store V → Store V
  unfolding is_superseded_sibling
  mark_superseded source_id target_id predicate rid path version s = record s {
    relations =
        update_where (is_superseded_sibling source_id target_id predicate rid path version s)
          (λ r. record r { superseded_by = some rid }) s.relations;
  }

  -- Only a document with a path and a version supersedes.
  unfoldable pub supersede_older : ℕ → ℕ → String → ℕ → ℕ → Store V → Store V
  unfolding mark_superseded
  supersede_older source_id target_id predicate rid doc_id s = elim (document_at doc_id s) [
    | none ↦ s
    | some d ↦ elim d.source_path [
      | none ↦ s
      | some path ↦ elim d.version [
        | none ↦ s
        | some version ↦ mark_superseded source_id target_id predicate rid path version s
      ]
    ]
  ]

  -- What follows the INSERT of the triple: the row is there.
  unfoldable pub link_evidence : ℕ → ℕ → String → ℕ → Option V → Store V → ℕ → Result (ℕ × Store V)
  unfolding set_embedding add_evidence supersede_older
  link_evidence source_id target_id predicate doc_id blob s rid =
      elim (add_evidence rid doc_id (set_embedding blob rid s)) [
        | err e ↦ err e
        | ok s' ↦ ok (rid, supersede_older source_id target_id predicate rid doc_id s')
      ]

  -- An error rolls the transaction back: no store is returned. The SELECT finds the row that the
  -- INSERT left, so its first branch is never taken.
  unfoldable pub upsert_relation :
      Vectors V → ℕ → ℕ → String → ℕ → Option V → Store V → Result (ℕ × Store V)
  unfolding blob_of add_relation link_evidence
  upsert_relation vectors source_id target_id predicate doc_id embedding s =
      elim (add_relation source_id target_id predicate s) [
        | err e ↦ err e
        | ok s' ↦ elim (first_where (same_triple source_id target_id predicate) s'.relations) [
          | none ↦ err foreign_key
          | some r ↦
              link_evidence source_id target_id predicate doc_id (blob_of vectors embedding) s' r.id
        ]
      ]

  -- An edge `(rid, source_id, target_id, predicate)`.
  abbrev pub edge_of : Relation V → ℕ × ℕ × ℕ × String
  edge_of r = (r.id, r.source_id, r.target_id, r.predicate)

  abbrev pub incident : List ℕ → Bool → Relation V → Bool
  incident ids include_superseded r =
      (id_in ids r.source_id || id_in ids r.target_id)
      && (include_superseded || not (is_some r.superseded_by))

  unfoldable pub get_neighbors : List ℕ → Bool → Store V → List (ℕ × ℕ × ℕ × String)
  get_neighbors ids include_superseded s =
      map edge_of (select (incident ids include_superseded) s.relations)

  -- The documents that the evidence rows name, in the order of those rows.
  unfoldable pub evidence_of : List Evidence → List ℕ → Store V → List (ℕ × Document)
  evidence_of [] ids s = []
  evidence_of (e ∷ es) ids s =
      let rest = evidence_of es ids s in
      if id_in ids e.relation_id
      then elim (document_at e.doc_id s) [ none ↦ rest | some d ↦ (e.relation_id, d) ∷ rest ]
      else rest

  unfoldable pub get_evidence_docs : List ℕ → Store V → List (ℕ × ℕ × String)
  unfolding evidence_of
  get_evidence_docs ids s =
      map (λ row. (row.0, row.1.id, row.1.content)) (evidence_of s.relation_evidence ids s)

  -- The same rows with the columns of the document kept.
  unfoldable pub get_evidence_docs_with_meta : List ℕ → Store V → List (ℕ × Document)
  unfolding evidence_of
  get_evidence_docs_with_meta ids s = evidence_of s.relation_evidence ids s

  unfoldable pub get_relation_embedding : ℕ → Store V → Option V
  get_relation_embedding rid s = elim (relation_at rid s) [ none ↦ none | some r ↦ r.embedding ]

  -- The JOIN of a relation with its two entities, in the order of the ids.
  abbrev pub name_at : ℕ → Store V → Option String
  name_at i s = elim (first_where (is_entity i) s.entities) [
    | none ↦ none
    | some e ↦ some e.canonical_name
  ]

  unfoldable pub named_relations : Store V → List (Relation V) → List (Relation V × String × String)
  named_relations s [] = []
  named_relations s (r ∷ rs) =
      let rest = named_relations s rs in
      elim (name_at r.source_id s) [
        | none ↦ rest
        | some source_name ↦ elim (name_at r.target_id s) [
          | none ↦ rest
          | some target_name ↦ (r, source_name, target_name) ∷ rest
        ]
      ]

  unfoldable pub list_relations : Store V → List (Relation V × String × String)
  unfolding named_relations
  list_relations s = named_relations s s.relations

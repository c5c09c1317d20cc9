-- ===== src/Graph/Complete.antt =====
-- `upsert_relation` leaves no relation that it should have superseded.

use membox.Base.{
  ℕ, ◌+◌, String, Bool, true, false, ◌&&◌, ◌||◌, ◌==◌, leb, any_of, is_some, str_eq, Option, none,
  some, List, [], ◌∷◌, not, arith, all_of, update_where, ◌≡◌, refl, Option-cases, Bool-cases, inl,
  inr,
}
use membox.Graph.Tables.{Document, Evidence, Relation, Store, Vectors, document_at}
use membox.Graph.Relations.{
  older_document, mark_superseded, supersede_older, upsert_relation, is_superseded_sibling,
  has_older_evidence,
}
use membox.Graph.Steps.{carries, carries-link, carries-upsert}

-- A document of an earlier version at the same path.
abbrev is_earlier : String → ℕ → Document → Bool
is_earlier path version d = elim d.source_path [
  | none ↦ false
  | some p ↦ elim d.version [ none ↦ false | some v ↦ str_eq p path && leb (v + 1) version ]
]

-- No evidence row of the relation is for a document of an earlier version at the path.
abbrev none_earlier : String → ℕ → List Document → List Evidence → ℕ → Bool
none_earlier path version documents evidence i =
    all_of
      (λ e.
        not (e.relation_id == i)
        || all_of (λ d. not (d.id == e.doc_id) || not (is_earlier path version d)) documents)
      evidence

none_earlier-documents :
    (path : String) (version i : ℕ) (documents : List Document)
    → any_of (λ d. d.id == i && older_document path version d) documents ≡ false
    → all_of (λ d. not (d.id == i) || not (is_earlier path version d)) documents ≡ true
unfolding older_document
none_earlier-documents path version i [] h = refl
none_earlier-documents path version i (d ∷ documents) h = elim (Option-cases d.source_path) [
  | inl n ↦ ground (arith, n, none_earlier-documents path version i documents)
  | inr (p, e) ↦ elim (Option-cases d.version) [
    | inl n ↦ ground (arith, e, n, none_earlier-documents path version i documents)
    | inr (v, f) ↦ ground (arith, e, f, none_earlier-documents path version i documents)
  ]
]

none_earlier-evidence :
    (path : String) (version i : ℕ) (documents : List Document) (evidence : List Evidence)
    → any_of
        (λ e.
          e.relation_id == i
          && any_of (λ d. d.id == e.doc_id && older_document path version d) documents)
        evidence
      ≡ false
    → none_earlier path version documents evidence i ≡ true
none_earlier-evidence path version i documents [] h = refl
none_earlier-evidence path version i documents (e ∷ evidence) h = ground (
  arith,
  none_earlier-documents path version e.doc_id documents,
  none_earlier-evidence path version i documents evidence,
)

module _ {V : Type 0} where
  -- A relation of the same source and predicate with another target.
  abbrev competes : ℕ → ℕ → String → Relation V → Bool
  competes source_id target_id predicate r =
      r.source_id == source_id && str_eq r.predicate predicate && not (r.target_id == target_id)

  -- Every relation other than rid that competes with the triple is superseded, or has no evidence from
  -- an earlier version of the document given, where that has a path and a version.
  abbrev pub none_left : ℕ → ℕ → String → ℕ → ℕ → Store V → Bool
  none_left source_id target_id predicate doc_id rid s = elim (document_at doc_id s) [
    | none ↦ true
    | some d ↦ elim d.source_path [
      | none ↦ true
      | some path ↦ elim d.version [
        | none ↦ true
        | some version ↦
            all_of
              (λ r.
                is_some r.superseded_by
                || r.id == rid
                || not (competes source_id target_id predicate r)
                || none_earlier path version s.documents s.relation_evidence r.id)
              s.relations
      ]
    ]
  ]

  module _ (source_id target_id : ℕ) (predicate : String) (doc_id : ℕ) where
    -- The competitors that the update leaves active have no evidence from an earlier version.
    none_left-mark :
        (rid : ℕ) (path : String) (version : ℕ) (s : Store V) (rows : List (Relation V))
        → all_of
            (λ r.
              is_some r.superseded_by
              || r.id == rid
              || not (competes source_id target_id predicate r)
              || none_earlier path version s.documents s.relation_evidence r.id)
            (update_where
              (is_superseded_sibling source_id target_id predicate rid path version s)
              (λ r. record r { superseded_by = some rid })
              rows)
          ≡ true
    unfolding is_superseded_sibling has_older_evidence
    none_left-mark rid path version s [] = refl
    none_left-mark rid path version s (r ∷ rows) =
        elim (Bool-cases (has_older_evidence path version s r.id)) [
          | inl old ↦ ground (arith, old, none_left-mark rid path version s rows)
          | inr fresh ↦ ground (
            arith,
            fresh,
            none_earlier-evidence path version r.id s.documents s.relation_evidence fresh,
            none_left-mark rid path version s rows,
          )
        ]

    none_left-supersede :
        (rid : ℕ) (s : Store V)
        → none_left source_id target_id predicate doc_id rid
            (supersede_older source_id target_id predicate rid doc_id s)
          ≡ true
    unfolding supersede_older mark_superseded is_superseded_sibling has_older_evidence
    none_left-supersede rid s = elim (Option-cases (document_at doc_id s)) [
      | inl n ↦ ground (arith, n)
      | inr (d, e) ↦ elim (Option-cases d.source_path) [
        | inl n ↦ ground (arith, e, n)
        | inr (path, p) ↦ elim (Option-cases d.version) [
          | inl n ↦ ground (arith, e, p, n)
          | inr (version, v) ↦
              ground (arith, e, p, v, none_left-mark rid path version s s.relations)
        ]
      ]
    ]

    -- After an assertion, where the given document has a path and a version, every relation other than
    -- the one asserted, with the same source and predicate and another target, is superseded, or none
    -- of its evidence is for a document of that path with a smaller version.
    pub upsert_relation-none_left :
        (vectors : Vectors V) (embedding : Option V) (s : Store V)
        → carries
            (none_left source_id target_id predicate doc_id)
            (upsert_relation vectors source_id target_id predicate doc_id embedding s)
          ≡ true
    upsert_relation-none_left vectors embedding s =
        carries-upsert source_id target_id predicate doc_id (λ s. true)
          (none_left source_id target_id predicate doc_id) (λ s s' h e. refl)
          (carries-link source_id target_id predicate doc_id (λ s. true)
            (none_left source_id target_id predicate doc_id) (λ rid blob s h. refl)
            (λ rid s s' h e. refl) (λ rid s h. none_left-supersede rid s))
          vectors embedding s refl

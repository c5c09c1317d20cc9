-- ===== src/Graph/Tables.antt =====
-- The tables of the graph. A vector is a value of `V`, of which the code uses the dimension and the
-- order of similarities.
use membox.Base.{
  ℕ, String, Bool, Option, none, some, List, ◌==◌, if◌then◌else◌, first_where, ◌≡◌, refl, ◌⊎◌, inl,
  inr,
}

pub record Document : Type 0 where
  pub id : ℕ
  pub content : String
  pub source : String
  pub project : Option String
  pub source_path : Option String
  pub section : Option String
  pub doc_date : Option String
  pub version : Option ℕ

pub record Entity (V : Type 0) : Type 0 where
  pub id : ℕ
  pub canonical_name : String
  pub entity_type : String
  pub description : String
  pub embedding : Option V

pub record Alias : Type 0 where
  pub alias : String
  pub entity_id : ℕ

pub record Relation (V : Type 0) : Type 0 where
  pub id : ℕ
  pub source_id : ℕ
  pub target_id : ℕ
  pub predicate : String
  pub embedding : Option V
  pub superseded_by : Option ℕ

pub record Evidence : Type 0 where
  pub relation_id : ℕ
  pub doc_id : ℕ

pub record Store (V : Type 0) : Type 0 where
  pub documents : List Document
  pub next_document : ℕ
  pub entities : List (Entity V)
  pub next_entity : ℕ
  pub entity_aliases : List Alias
  pub relations : List (Relation V)
  pub next_relation : ℕ
  pub relation_evidence : List Evidence

pub record Vectors (V : Type 0) : Type 0 where
  pub dimension : V → ℕ
  pub cosine : V → V → ℕ

-- SQLite's failures of a UNIQUE column and of a foreign key.
pub data Error : Type 0 where
  integrity foreign_key : Error

pub data Result {ℓ} (A : Type ℓ) : Type ℓ where
  ok : A → Result A
  err : Error → Result A

pub Result-cases {ℓ} :
    {A : Type ℓ} (r : Result A) → ((e : Error) × (r ≡ err e)) ⊎ ((a : A) × (r ≡ ok a))
Result-cases (ok a) = inr (a, refl)
Result-cases (err e) = inl (e, refl)

abbrev pub is_document : ℕ → Document → Bool
is_document i d = d.id == i

module _ {V : Type 0} where
  abbrev pub is_entity : ℕ → Entity V → Bool
  is_entity i e = e.id == i

  abbrev pub is_relation : ℕ → Relation V → Bool
  is_relation i r = r.id == i

  abbrev pub document_at : ℕ → Store V → Option Document
  document_at i s = first_where (is_document i) s.documents

  abbrev pub relation_at : ℕ → Store V → Option (Relation V)
  relation_at i s = first_where (is_relation i) s.relations

  -- `vec_to_blob(embedding) if embedding else None`
  unfoldable pub blob_of : Vectors V → Option V → Option V
  blob_of vectors none = none
  blob_of vectors (some v) = if vectors.dimension v == 0 then none else some v

-- ===== src/Store/Units/Formed.antt =====
-- `create_memory_unit` keeps the ids of the tables below the counter.
use membox.Base.{
  ℕ, ◌+◌, ◌<◌, ◌≡◌, sym, false, some, List, [], ◌∷◌, arith, String, All, All-mono, All-append,
  any_of, any_of-first_where, first_where, Option-cases, Bool-cases, inl, inr, Bool,
}
use mathlib.Core.Path.{subst}
use membox.Model.{UnitRecord}
use membox.Store.Units.Tables.{Store, ok, Hashing}
use membox.Store.Units.Create.{
  find_unit_covering_sources, memory_unit_content_hash, has_key, insert_row, fill_unit,
  create_memory_unit,
}
use membox.Store.Units.Cover.{IsWellFormed, grown, insert_sources-extends}
use membox.Store.Units.Dedup.{create-covered_result, create-fresh_result, create-clash_result}

All-first_where :
    {A : Type 0} (P : A → Type 0) (find : A → Bool) (rows : List A) {r : A}
    → All P rows
    → first_where find rows ≡ some r
    → P r
All-first_where P find [] h e = cc
All-first_where P find (q ∷ rows) {r} h e = elim (Bool-cases (find q)) [
  | inl first ↦ let same : q ≡ r = ground (arith, e, first) in subst P same h.0
  | inr later ↦
      let rest : first_where find rows ≡ some r = ground (arith, e, later) in
      All-first_where P find rows h.1 rest
]

fill_unit-IsWellFormed :
    (unit : UnitRecord) (command : String) (i : ℕ) (s : Store)
    → i < s.next_id
    → IsWellFormed s
    → IsWellFormed (fill_unit unit command i s)
unfolding fill_unit
fill_unit-IsWellFormed unit command i s lt formed =
    let (added, e, own) = insert_sources-extends i unit.sources s.sources in
    record {
      units = formed.units;
      sources = subst (All (λ row. row.unit_id < s.next_id)) (sym e) (
          All-append (λ row. row.unit_id < s.next_id) s.sources added formed.sources
            (All-mono (λ row. row.unit_id ≡ i) (λ row. row.unit_id < s.next_id) added
              (λ row same. ground (arith, same, lt)) own));
    }

grown-IsWellFormed :
    (now : ℕ) (content_hash : String) (unit : UnitRecord) (command : String) (s : Store)
    → IsWellFormed s
    → IsWellFormed (grown now content_hash unit command s)
unfolding insert_row
grown-IsWellFormed now content_hash unit command s formed = record {
  units =
      All-append (λ r. r.id < s.next_id + 1) s.memory_units
        (insert_row now content_hash s.next_id unit ∷ [])
        (All-mono (λ r. r.id < s.next_id) (λ r. r.id < s.next_id + 1) s.memory_units
          (λ r lt. omega arith) formed.units)
        (omega arith, tt);
  sources =
      All-mono (λ row. row.unit_id < s.next_id) (λ row. row.unit_id < s.next_id + 1) s.sources
        (λ row lt. omega arith) formed.sources;
}

-- A creation that succeeds keeps the store well-formed: every unit, and the unit of every source row,
-- has an id below the counter.
pub create_memory_unit-IsWellFormed :
    (h : Hashing) (now : ℕ) (unit : UnitRecord) (command : String) (s : Store) (i : ℕ) (s' : Store)
    → IsWellFormed s
    → create_memory_unit h now unit command s ≡ ok (i, s')
    → IsWellFormed s'
create_memory_unit-IsWellFormed h now unit command s i s' formed result =
    let content_hash = memory_unit_content_hash h unit in
    let find = has_key unit.project unit.unit_type content_hash in
    elim (Option-cases (find_unit_covering_sources s unit.sources)) [
      | inr (j, covered) ↦
          subst IsWellFormed
            (sym (create-covered_result h now unit command s i s' result j covered).1) formed
      | inl free ↦ elim (Option-cases (first_where find s.memory_units)) [
        | inr (r, clash) ↦
            subst IsWellFormed
              (sym (create-clash_result h now unit command s i s' result r free clash).1)
              (fill_unit-IsWellFormed unit command r.id s
                (All-first_where (λ q. q.id < s.next_id) find s.memory_units formed.units clash)
                formed)
        | inl absent ↦
            let new : any_of find s.memory_units ≡ false =
              ground (arith, any_of-first_where find s.memory_units, absent) in
            subst IsWellFormed
              (sym (create-fresh_result h now unit command s i s' result free new).1)
              (fill_unit-IsWellFormed unit command s.next_id (grown now content_hash unit command s)
                (omega arith) (grown-IsWellFormed now content_hash unit command s formed))
      ]
    ]

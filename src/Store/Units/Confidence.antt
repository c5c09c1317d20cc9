-- ===== src/Store/Units/Confidence.antt =====
-- `attach_memory_unit_source` and `evolved_confidence`: further sources and the confidence.
use Prim.Native.Nat.{max}
use mathlib.Core.Option
use membox.Base.{
  ℕ, ◌+◌, ◌≤◌, ◌≡◌, refl, ap, ◌∙◌, Bool, true, some, List, [], ◌∷◌, ◌++◌, arith, String, str_eq,
  eq_iff, ◌==◌, ==_iff, if◌then◌else◌, Option-cases, inl, inr, any_of, ltb, All, All-mono,
  first_where-holds, ◌&&◌, first_where-update_where,
}
use membox.Model.{UnitSource}
use membox.Model.Enums.{same_source_kind_iff}
use membox.Store.Units.Tables.{UnitRow, SourceRow, Store, ok, unit_at, has_unit_id}
use membox.Store.Units.Create.{same_source, source_row, insert_source}
use membox.Store.Units.Sources.{
  independent_source_keys, evolved_confidence, gained_keys, strengthen, credit, attach_source,
  attach_memory_unit_source,
}

-- The confidence never falls, new sources raise it to at most 95 where it was below, and sources
-- that come one by one raise it as sources that come at once do.
pub evolved_confidence-evolves :
    (current m n : ℕ)
    → (current ≤ evolved_confidence current n)
      × (evolved_confidence current n ≤ max current 95)
      × (evolved_confidence (evolved_confidence current m) n ≡ evolved_confidence current (m + n))
unfolding evolved_confidence
evolved_confidence-evolves current m n = ground arith

-- Keys of the list before count for nothing.
gained_keys-known :
    (keys before : List String)
    → All (λ k. any_of (λ q. str_eq q k) before ≡ true) keys
    → gained_keys before keys ≡ 0
unfolding gained_keys
gained_keys-known [] before known = refl
gained_keys-known (k ∷ keys) before known =
    ground (arith, known.0, gained_keys-known keys before known.1)

any_of_self : (k : String) (keys : List String) → any_of (λ q. str_eq q k) (k ∷ keys) ≡ true
any_of_self k keys = ground (arith, eq_iff k k)

All-known : (keys : List String) → All (λ k. any_of (λ q. str_eq q k) keys ≡ true) keys
All-known [] = tt
All-known (key ∷ keys) = (
  any_of_self key keys,
  All-mono (λ k. any_of (λ q. str_eq q k) keys ≡ true)
      (λ k. any_of (λ q. str_eq q k) (key ∷ keys) ≡ true) keys (λ k known. ground (arith, known))
      (All-known keys),
)

gained_keys-same : (keys : List String) → gained_keys keys keys ≡ 0
gained_keys-same keys = gained_keys-known keys keys (All-known keys)

any_of-append_last :
    {A : Type 0} (test : A → Bool) (xs : List A) (x : A)
    → test x ≡ true
    → any_of test (xs ++ x ∷ []) ≡ true
any_of-append_last test [] x e = ground (arith, e)
any_of-append_last test (y ∷ xs) x e = ground (arith, any_of-append_last test xs x e)

insert_source-twice :
    (i : ℕ) (source : UnitSource) (rows : List SourceRow)
    → insert_source i source (insert_source i source rows) ≡ insert_source i source rows
unfolding insert_source same_source
insert_source-twice i source rows = ground (
  arith,
  any_of-append_last (same_source i source) rows (source_row i source),
  ==_iff i i,
  eq_iff source.source_ref source.source_ref,
  eq_iff source.source_message_id source.source_message_id,
  same_source_kind_iff source.source_kind source.source_kind,
)

module _ (now : ℕ) (source : UnitSource) (command reason : String) (s : Store) where
  -- What a lookup finds after an attachment to unit `p`.
  attach_source-unit_at :
      (p : UnitRow) (j : ℕ)
      → (gained : ℕ) × (unit_at j (attach_source now p source command reason s)
          ≡ Option.map
              (λ r.
                if r.id == p.id && ltb 0 gained
                then strengthen now (evolved_confidence p.confidence_score gained) r
                else r)
              (unit_at j s))
  unfolding attach_source credit strengthen
  attach_source-unit_at p j =
      let s' : Store = record s { sources = insert_source p.id source s.sources } in
      let gained = gained_keys (independent_source_keys p.id s) (independent_source_keys p.id s') in
      let raised =
        first_where-update_where (has_unit_id j) (has_unit_id p.id)
          (strengthen now (evolved_confidence p.confidence_score gained)) s.memory_units
          (λ x. refl) in
      (gained, ground (arith, raised, Option-cases (unit_at j s)))

  -- An attachment leaves the status of every unit, and lowers the confidence of none; it raises one
  -- to at most 95.
  pub attach_memory_unit_source-confidence :
      (i j : ℕ) (found : Bool) (s' : Store) (r : UnitRow)
      → attach_memory_unit_source now i source command reason s ≡ ok (found, s')
      → unit_at j s ≡ some r
      → (q : UnitRow) × (unit_at j s' ≡ some q)
        × (q.status ≡ r.status)
        × (r.confidence_score ≤ q.confidence_score)
        × (q.confidence_score ≤ max r.confidence_score 95)
  unfolding attach_memory_unit_source strengthen
  attach_memory_unit_source-confidence i j found s' r result at =
      elim (Option-cases (unit_at i s)) [
        | inl nothing ↦ (r, ground (arith, result, at, nothing), refl, ground arith, ground arith)
        | inr (p, present) ↦
            let (gained, lookup) = attach_source-unit_at p j in
            let (more, bound, _) = evolved_confidence-evolves p.confidence_score 0 gained in
            let id = first_where-holds (has_unit_id i) s.memory_units present in
            let id' = first_where-holds (has_unit_id j) s.memory_units at in
            let q : UnitRow =
              if r.id == p.id && ltb 0 gained
              then strengthen now (evolved_confidence p.confidence_score gained) r
              else r in
            (
              q,
              ground (arith, result, at, present, lookup),
              ground arith,
              ground (arith, at, present, id, id', more, ==_iff r.id p.id),
              ground (arith, at, present, id, id', bound, ==_iff r.id p.id),
            )
      ]

  attach_source-sources :
      (p : UnitRow)
      → (attach_source now p source command reason s).sources ≡ insert_source p.id source s.sources
  unfolding attach_source credit
  attach_source-sources p = ground arith

  attach_source-known :
      (p : UnitRow)
      → insert_source p.id source s.sources ≡ s.sources
      → attach_source now p source command reason s ≡ s
  unfolding attach_source
  attach_source-known p known =
      let s' : Store = record s { sources = insert_source p.id source s.sources } in
      let same : s' ≡ s = ap (λ rows. record s { sources = rows }) known in
      let none_gained : gained_keys (independent_source_keys p.id s)
            (independent_source_keys p.id s')
          ≡ 0 =
        ap (λ t. gained_keys (independent_source_keys p.id s) (independent_source_keys p.id t)) same
        ∙ gained_keys-same (independent_source_keys p.id s) in
      ground (arith, same, none_gained)

module _ (now now' : ℕ) (source : UnitSource) (command reason : String) (s : Store) where
  -- An attachment that found the unit, or did not, does the same again, and changes nothing.
  pub attach_memory_unit_source-twice :
      (i : ℕ) (found : Bool) (s' : Store)
      → attach_memory_unit_source now i source command reason s ≡ ok (found, s')
      → attach_memory_unit_source now' i source command reason s' ≡ ok (found, s')
  unfolding attach_memory_unit_source strengthen
  attach_memory_unit_source-twice i found s' result = elim (Option-cases (unit_at i s)) [
    | inl nothing ↦ ground (arith, result, nothing)
    | inr (p, present) ↦
        let (gained, lookup) = attach_source-unit_at now source command reason s p i in
        let id = first_where-holds (has_unit_id i) s.memory_units present in
        let s2 = attach_source now p source command reason s in
        let rows = attach_source-sources now source command reason s p in
        let q : UnitRow =
          if p.id == p.id && ltb 0 gained
          then strengthen now (evolved_confidence p.confidence_score gained) p
          else p in
        let at : unit_at i s2 ≡ some q = ground (arith, lookup, present) in
        let same_id : q.id ≡ p.id = ground arith in
        let known : insert_source q.id source s2.sources ≡ s2.sources =
          ground (arith, rows, same_id, insert_source-twice p.id source s.sources) in
        let again = attach_source-known now' source command reason s2 q known in
        ground (arith, result, present, at, again)
  ]

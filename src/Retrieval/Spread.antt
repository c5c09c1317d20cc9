-- ===== src/Retrieval/Spread.antt =====
-- The round robin over the sources loses nothing and fills the limit.
use Prim.Native.Nat.{min}
use membox.Base.{
  ℕ, zero, suc, ◌+◌, ◌-◌, ◌≤◌, Bool, ◌||◌, List, [], ◌∷◌, ◌++◌, ◌==◌, leb, take, length,
  length-append, count_where, arith, ◌≡◌, Bool-cases, inl, inr,
}
use membox.Graph.Tables.{Document}
use membox.Retrieval.Chunks.{
  Buckets, same_source, put_bucket, put_buckets, robin_round, robin, round_robin_by_source,
}

-- The rows that a test accepts, in all buckets; and all rows.
abbrev count_in : (Document → Bool) → Buckets → ℕ
count_in test [] = 0
count_in test (bucket ∷ buckets) = count_where test bucket.1 + count_in test buckets

abbrev size : Buckets → ℕ
size [] = 0
size (bucket ∷ buckets) = length bucket.1 + size buckets

pub count_where-append :
    (test : Document → Bool) (xs ys : List Document)
    → count_where test (xs ++ ys) ≡ count_where test xs + count_where test ys
count_where-append test [] ys = omega arith
count_where-append test (x ∷ xs) ys = omega (arith, count_where-append test xs ys)

count_in-put :
    (test : Document → Bool) (row : Document) (buckets : Buckets)
    → count_in test (put_bucket row buckets) ≡ count_where test (row ∷ []) + count_in test buckets
unfolding put_bucket
count_in-put test row [] = omega arith
count_in-put test row (bucket ∷ buckets) = elim (Bool-cases (same_source bucket.0 row)) [
  | inl same ↦ ground (arith, same, count_where-append test bucket.1 (row ∷ []))
  | inr other ↦ ground (arith, other, count_in-put test row buckets)
]

count_in-put_buckets :
    (test : Document → Bool) (rows : List Document) (buckets : Buckets)
    → count_in test (put_buckets rows buckets) ≡ count_where test rows + count_in test buckets
unfolding put_buckets
count_in-put_buckets test [] buckets = omega arith
count_in-put_buckets test (row ∷ rows) buckets =
    omega (
      arith,
      count_in-put test row buckets,
      count_in-put_buckets test rows (put_bucket row buckets),
    )

size-put : (row : Document) (buckets : Buckets) → size (put_bucket row buckets) ≡ suc (size buckets)
unfolding put_bucket
size-put row [] = omega arith
size-put row (bucket ∷ buckets) = elim (Bool-cases (same_source bucket.0 row)) [
  | inl same ↦ ground (arith, same, length-append bucket.1 (row ∷ []))
  | inr other ↦ ground (arith, other, size-put row buckets)
]

size-put_buckets :
    (rows : List Document) (buckets : Buckets)
    → size (put_buckets rows buckets) ≡ length rows + size buckets
unfolding put_buckets
size-put_buckets [] buckets = omega arith
size-put_buckets (row ∷ rows) buckets =
    omega (arith, size-put row buckets, size-put_buckets rows (put_bucket row buckets))

count-round :
    (test : Document → Bool) (room : ℕ) (buckets : Buckets)
    → count_where test (robin_round room buckets).0 + count_in test (robin_round room buckets).1
      ≡ count_in test buckets
unfolding robin_round
count-round test zero buckets = omega arith
count-round test (suc room) [] = omega arith
count-round test (suc room) ((key, []) ∷ buckets) =
    omega (arith, count-round test (suc room) buckets)
count-round test (suc room) ((key, row ∷ rows) ∷ buckets) =
    omega (arith, count-round test room buckets)

size-round :
    (room : ℕ) (buckets : Buckets)
    → length (robin_round room buckets).0 + size (robin_round room buckets).1 ≡ size buckets
unfolding robin_round
size-round zero buckets = omega arith
size-round (suc room) [] = omega arith
size-round (suc room) ((key, []) ∷ buckets) = omega (arith, size-round (suc room) buckets)
size-round (suc room) ((key, row ∷ rows) ∷ buckets) = omega (arith, size-round room buckets)

round-le : (room : ℕ) (buckets : Buckets) → length (robin_round room buckets).0 ≤ room
unfolding robin_round
round-le zero buckets = omega arith
round-le (suc room) [] = omega arith
round-le (suc room) ((key, []) ∷ buckets) = round-le (suc room) buckets
round-le (suc room) ((key, row ∷ rows) ∷ buckets) = omega (arith, round-le room buckets)

-- A round takes a row while there is one.
round-progress :
    (room : ℕ) (buckets : Buckets)
    → min 1 (size buckets) ≤ length (robin_round (suc room) buckets).0
unfolding robin_round
round-progress room [] = omega arith
round-progress room ((key, []) ∷ buckets) = omega (arith, round-progress room buckets)
round-progress room ((key, row ∷ rows) ∷ buckets) = omega arith

count-robin :
    (test : Document → Bool) (fuel room : ℕ) (buckets : Buckets)
    → count_where test (robin fuel room buckets) ≤ count_in test buckets
unfolding robin
count-robin test zero room buckets = omega arith
count-robin test (suc fuel) zero buckets = omega arith
count-robin test (suc fuel) (suc room) [] = omega arith
count-robin test (suc fuel) (suc room) (bucket ∷ buckets) =
    let round = robin_round (suc room) (bucket ∷ buckets) in
    omega (
      arith,
      count-round test (suc room) (bucket ∷ buckets),
      count-robin test fuel (suc room - length round.0) round.1,
      count_where-append test round.0 (robin fuel (suc room - length round.0) round.1),
    )

length-robin :
    (fuel room : ℕ) (buckets : Buckets)
    → min room (size buckets) ≤ fuel
    → length (robin fuel room buckets) ≡ min room (size buckets)
unfolding robin
length-robin zero room buckets h = omega (arith, h)
length-robin (suc fuel) zero buckets h = omega arith
length-robin (suc fuel) (suc room) [] h = omega arith
length-robin (suc fuel) (suc room) (bucket ∷ buckets) h =
    let round = robin_round (suc room) (bucket ∷ buckets) in
    omega (
      arith,
      h,
      size-round (suc room) (bucket ∷ buckets),
      round-le (suc room) (bucket ∷ buckets),
      round-progress room (bucket ∷ buckets),
      length-robin fuel (suc room - length round.0) round.1,
      length-append round.0 (robin fuel (suc room - length round.0) round.1),
    )

count-take :
    (test : Document → Bool) (n : ℕ) (rows : List Document)
    → count_where test (take n rows) ≤ count_where test rows
count-take test zero rows = omega arith
count-take test (suc n) [] = omega arith
count-take test (suc n) (row ∷ rows) = omega (arith, count-take test n rows)

length-take : (n : ℕ) (rows : List Document) → length (take n rows) ≡ min n (length rows)
length-take zero rows = omega arith
length-take (suc n) [] = omega arith
length-take (suc n) (row ∷ rows) = omega (arith, length-take n rows)

-- The rows that are kept are as many as the limit allows of those given: its fuel is enough for the
-- loop over the buckets.
pub round_robin_by_source-length :
    (rows : List Document) (limit : ℕ)
    → length (round_robin_by_source rows limit) ≡ min limit (length rows)
unfolding round_robin_by_source
round_robin_by_source-length rows limit =
    let buckets = put_buckets rows [] in
    elim (Bool-cases (limit == 0 || leb (length rows) limit || leb (length buckets) 1)) [
      | inl plain ↦ ground (arith, plain, length-take limit rows)
      | inr spread ↦
          ground (
            arith,
            spread,
            size-put_buckets rows [],
            length-robin limit limit buckets (omega arith),
          )
    ]

-- No row is kept more often than it is given: of any kind of row there are at most as many as before.
pub round_robin_by_source-count :
    (test : Document → Bool) (rows : List Document) (limit : ℕ)
    → count_where test (round_robin_by_source rows limit) ≤ count_where test rows
unfolding round_robin_by_source
round_robin_by_source-count test rows limit =
    let buckets = put_buckets rows [] in
    elim (Bool-cases (limit == 0 || leb (length rows) limit || leb (length buckets) 1)) [
      | inl plain ↦ ground (arith, plain, count-take test limit rows)
      | inr spread ↦
          ground
            (arith, spread, count_in-put_buckets test rows [], count-robin test limit limit buckets)
    ]

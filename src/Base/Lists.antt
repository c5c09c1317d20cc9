-- ===== src/Base/Lists.antt =====
-- Lists as the tables and sequences of the program, measured by native numbers.
use Prim.Native.Nat.{ℕ, zero, suc, ◌+◌, ◌≤◌}
use mathlib.Core.Bool.{Bool, true, false, ◌&&◌, ◌||◌}
use mathlib.Core.List.{List, [], ◌∷◌, ◌++◌}
use mathlib.Core.Option
use mathlib.Core.Logic.{◌⊎◌, inl, inr}
use mathlib.Core.Option.{Option, none, some}
use mathlib.Core.Path.{◌≡◌, refl, ap}
use native.Mathlib.Omega.{arith}
use membox.Base.Tests.{if◌then◌else◌, is_some}

module _ {ℓ} {A : Type ℓ} where
  abbrev pub length : List A → ℕ
  length [] = 0
  length (x ∷ xs) = suc (length xs)

  pub length-append : (xs ys : List A) → length (xs ++ ys) ≡ length xs + length ys
  length-append [] ys = omega arith
  length-append (x ∷ xs) ys = omega (arith, length-append xs ys)

  abbrev pub take : ℕ → List A → List A
  take zero xs = []
  take (suc n) [] = []
  take (suc n) (x ∷ xs) = x ∷ take n xs

  pub List-cases : (xs : List A) → (xs ≡ []) ⊎ ((x : A) × (rest : List A) × (xs ≡ x ∷ rest))
  List-cases [] = inl refl
  List-cases (x ∷ rest) = inr (x, rest, refl)

  -- A predicate of every element.
  abbrev pub All {κ} : (A → Type κ) → List A → Type κ
  All P [] = Unit
  All P (x ∷ xs) = P x × All P xs

  pub All-append {κ} : (P : A → Type κ) (xs ys : List A) → All P xs → All P ys → All P (xs ++ ys)
  All-append P [] ys hx hy = hy
  All-append P (x ∷ xs) ys hx hy = (hx.0, All-append P xs ys hx.1 hy)

  pub All-mono {κ μ} :
      (P : A → Type κ) (Q : A → Type μ) (xs : List A) → ((x : A) → P x → Q x) → All P xs → All Q xs
  All-mono P Q [] f h = tt
  All-mono P Q (x ∷ xs) f h = (f x h.0, All-mono P Q xs f h.1)

  -- `[x for x in xs if keep(x)]`
  abbrev pub select : (A → Bool) → List A → List A
  select keep [] = []
  select keep (x ∷ xs) = if keep x then x ∷ select keep xs else select keep xs

  -- `any(test(x) for x in xs)`, `all(…)`
  abbrev pub any_of : (A → Bool) → List A → Bool
  any_of test [] = false
  any_of test (x ∷ xs) = if test x then true else any_of test xs

  abbrev pub all_of : (A → Bool) → List A → Bool
  all_of test [] = true
  all_of test (x ∷ xs) = test x && all_of test xs

  -- `SELECT COUNT(*) … WHERE test`
  abbrev pub count_where : (A → Bool) → List A → ℕ
  count_where test [] = 0
  count_where test (x ∷ xs) = (if test x then 1 else 0) + count_where test xs

  -- The first row that a test accepts.
  abbrev pub first_where : (A → Bool) → List A → Option A
  first_where test [] = none
  first_where test (x ∷ xs) = if test x then some x else first_where test xs

  -- `UPDATE … SET change WHERE test`
  abbrev pub update_where : (A → Bool) → (A → A) → List A → List A
  update_where test change [] = []
  update_where test change (x ∷ xs) = (if test x then change x else x) ∷ update_where test change xs

  pub length-update_where :
      (test : A → Bool) (change : A → A) (xs : List A)
      → length (update_where test change xs) ≡ length xs
  length-update_where test change [] = refl
  length-update_where test change (x ∷ xs) = ap suc (length-update_where test change xs)

  pub first_where-holds :
      (find : A → Bool) (xs : List A) {x : A} → first_where find xs ≡ some x → find x ≡ true
  first_where-holds find [] e = cc
  first_where-holds find (y ∷ xs) {x} e = ground (arith, first_where-holds find xs {x = x})

  pub first_where-append :
      (find : A → Bool) (xs ys : List A)
      → first_where find (xs ++ ys)
        ≡ elim (first_where find xs) [ none ↦ first_where find ys | some x ↦ some x ]
  first_where-append find [] ys = refl
  first_where-append find (x ∷ xs) ys = ground (arith, first_where-append find xs ys)

  pub any_of-append :
      (test : A → Bool) (xs ys : List A)
      → any_of test (xs ++ ys) ≡ (any_of test xs || any_of test ys)
  any_of-append test [] ys = refl
  any_of-append test (x ∷ xs) ys = ground (arith, any_of-append test xs ys)

  -- A lookup finds a row exactly when some row passes its test.
  pub any_of-first_where :
      (find : A → Bool) (xs : List A) → any_of find xs ≡ is_some (first_where find xs)
  any_of-first_where find [] = refl
  any_of-first_where find (x ∷ xs) = ground (arith, any_of-first_where find xs)

  -- What a lookup finds after an UPDATE that keeps what the lookup tests.
  pub first_where-update_where :
      (find test : A → Bool) (change : A → A) (xs : List A)
      → ((x : A) → find (change x) ≡ find x)
      → first_where find (update_where test change xs)
        ≡ Option.map (λ x. if test x then change x else x) (first_where find xs)
  first_where-update_where find test change [] same = refl
  first_where-update_where find test change (x ∷ xs) same =
      ground (arith, same x, first_where-update_where find test change xs same)

  pub count_where-le-length : (test : A → Bool) (xs : List A) → count_where test xs ≤ length xs
  count_where-le-length test [] = omega arith
  count_where-le-length test (x ∷ xs) = ground (arith, count_where-le-length test xs)

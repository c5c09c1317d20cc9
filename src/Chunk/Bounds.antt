-- ===== src/Chunk/Bounds.antt =====
-- The parts of a long section: no paragraph is lost, and how far a part may pass the limit.
use Prim.Native.String
use mathlib.Core.Path.{subst}
use mathlib.Core.List.{append_assoc}
use membox.Base.{
  ℕ, ◌+◌, ◌≤◌, ◌<◌, ◌≡◌, ◌⊎◌, inl, inr, refl, sym, ap, ◌∙◌, String, List, [], ◌∷◌, ◌++◌, ltb,
  length, arith, All, All-mono, Bool-cases,
}
use membox.Base.Text.{join, text_length}
use membox.Chunk.Tokens.{est_tokens, est_tokens-append, cjk_count, is_cjk}
use membox.Chunk.Split.{pack}

abbrev pub sum_tokens : List String → ℕ
sum_tokens [] = 0
sum_tokens (s ∷ list) = est_tokens s + sum_tokens list

abbrev pub flatten : List (List String) → List String
flatten [] = []
flatten (group ∷ groups) = group ++ flatten groups

sum_tokens-append : (xs ys : List String) → sum_tokens (xs ++ ys) ≡ sum_tokens xs + sum_tokens ys
sum_tokens-append [] ys = omega arith
sum_tokens-append (x ∷ xs) ys = omega (arith, sum_tokens-append xs ys)

blank_tokens : est_tokens "\n\n" ≡ 1
unfolding est_tokens cjk_count is_cjk text_length
blank_tokens = refl

-- Each blank line between two paragraphs counts at most one token.
sum_tokens-join :
    (p : String) (list : List String)
    → est_tokens (join "\n\n" (p ∷ list)) ≤ sum_tokens (p ∷ list) + length list
unfolding join
sum_tokens-join p [] = omega arith
sum_tokens-join p (q ∷ list) =
    let rest = join "\n\n" (q ∷ list) in
    let first = (est_tokens-append p (String.◌++◌ "\n\n" rest)).0 in
    let second = (est_tokens-append "\n\n" rest).0 in
    let blank : est_tokens "\n\n" ≡ 1 = blank_tokens in
    omega (arith, first, second, blank, sum_tokens-join q list)

-- A group: some paragraphs, which are one alone or have no more tokens than the limit.
abbrev Fits : ℕ → List String → Type 0
Fits max_tokens group = (0 < length group) × ((length group ≡ 1) ⊎ (sum_tokens group ≤ max_tokens))

pack-Fits :
    (max_tokens : ℕ) (current : List String) (tokens : ℕ) (paras : List String)
    → tokens ≡ sum_tokens current
    → (length current ≡ 0) ⊎ Fits max_tokens current
    → (flatten (pack max_tokens current tokens paras) ≡ current ++ paras)
      × All (Fits max_tokens) (pack max_tokens current tokens paras)
unfolding pack
pack-Fits max_tokens [] tokens [] e h = (refl, tt)
pack-Fits max_tokens (p ∷ current) tokens [] e (inr fits) = (refl, (fits, tt))
pack-Fits max_tokens (p ∷ current) tokens [] e (inl h) = cc
pack-Fits max_tokens [] tokens (para ∷ paras) e h =
    pack-Fits max_tokens (para ∷ []) (tokens + est_tokens para) paras (omega (arith, e))
      (inr (omega arith, inl refl))
pack-Fits max_tokens (p ∷ current) tokens (para ∷ paras) e (inl h) = cc
pack-Fits max_tokens (p ∷ current) tokens (para ∷ paras) e (inr fits) =
    let Good : List (List String) → Type 0 =
      λ groups. (flatten groups ≡ p ∷ current ++ para ∷ paras) × All (Fits max_tokens) groups in
    elim (Bool-cases (ltb max_tokens (tokens + est_tokens para))) [
      | inl over ↦
          let (same, rest) =
            pack-Fits max_tokens (para ∷ []) (est_tokens para) paras (omega arith)
              (inr (omega arith, inl refl)) in
          let flushed : pack max_tokens (p ∷ current) tokens (para ∷ paras)
              ≡ (p ∷ current) ∷ pack max_tokens (para ∷ []) (est_tokens para) paras =
            ground (arith, over) in
          subst Good (sym flushed) (ap (λ list. p ∷ current ++ list) same, (fits, rest))
      | inr under ↦
          let (same, rest) =
            pack-Fits max_tokens (p ∷ current ++ para ∷ []) (tokens + est_tokens para) paras
              (omega (arith, e, sum_tokens-append current (para ∷ [])))
              (inr (
                omega arith,
                inr (ground (arith, under, e, sum_tokens-append current (para ∷ []))),
              )) in
          let grown : pack max_tokens (p ∷ current) tokens (para ∷ paras)
              ≡ pack max_tokens (p ∷ current ++ para ∷ []) (tokens + est_tokens para) paras =
            ground (arith, under) in
          subst Good (sym grown)
            (same ∙ ap (λ list. p ∷ list) (append_assoc current (para ∷ []) paras), rest)
    ]

bounded :
    (max_tokens : ℕ) (group : List String)
    → Fits max_tokens group
    → (length group ≡ 1) ⊎ (est_tokens (join "\n\n" group) + 1 ≤ max_tokens + length group)
bounded max_tokens [] fits = absurd (omega (arith, fits.0))
bounded max_tokens (p ∷ list) (some_left, inl one) = inl one
bounded max_tokens (p ∷ list) (some_left, inr few) =
    inr (omega (arith, few, sum_tokens-join p list))

-- Packing loses no paragraph and keeps their order. A group of it is one paragraph, or it has at most
-- as many tokens as the limit and one for each blank line between its paragraphs.
pub pack-groups :
    (max_tokens : ℕ) (paras : List String)
    → (flatten (pack max_tokens [] 0 paras) ≡ paras)
      × All
          (λ group.
            (length group ≡ 1) ⊎ (est_tokens (join "\n\n" group) + 1 ≤ max_tokens + length group))
          (pack max_tokens [] 0 paras)
pack-groups max_tokens paras =
    let (same, fits) = pack-Fits max_tokens [] 0 paras refl (inl refl) in
    (
      same,
      All-mono (Fits max_tokens)
          (λ group.
            (length group ≡ 1) ⊎ (est_tokens (join "\n\n" group) + 1 ≤ max_tokens + length group))
          (pack max_tokens [] 0 paras) (bounded max_tokens) fits,
    )

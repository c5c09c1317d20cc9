-- ===== src/Chunk/Tokens.antt =====
-- `est_tokens`: the estimate of the number of tokens of a text.
use Prim.Native.Nat.{◌/◌}
use Prim.Native.Char.{code}
use Prim.Native.String
use Prim.Native.String.append.{nil as nil_append, cons as cons_append}
use membox.Base.{ℕ, ◌+◌, ◌-◌, ◌*◌, ◌≤◌, ◌≡◌, Bool, ◌&&◌, ◌||◌, String, leb, if◌then◌else◌, arith}
use membox.Base.Text.{text_length}

-- The ranges of the character class `_CJK_RE`.
unfoldable pub is_cjk : ℕ → Bool
is_cjk c =
    (leb 19968 c && leb c 40959)
    || (leb 13312 c && leb c 19903)
    || (leb 131072 c && leb c 173791)
    || (leb 12288 c && leb c 12351)
    || (leb 65280 c && leb c 65519)
    || (leb 12353 c && leb c 12447)
    || (leb 12448 c && leb c 12543)
    || (leb 44032 c && leb c 55215)

unfoldable pub cjk_count : String → ℕ
cjk_count String.[] = 0
cjk_count (String.◌∷◌ c s) = (if is_cjk (code c) then 1 else 0) + cjk_count s

-- `cjk_count + math.ceil(non_cjk_count / 4)`
unfoldable pub est_tokens : String → ℕ
unfolding cjk_count
est_tokens s = cjk_count s + ((text_length s - cjk_count s) + 3) / 4

cjk_count-le-length : (s : String) → cjk_count s ≤ text_length s
unfolding cjk_count text_length
cjk_count-le-length String.[] = omega arith
cjk_count-le-length (String.◌∷◌ c s) = ground (arith, cjk_count-le-length s)

pub cjk_count-append : (s t : String) → cjk_count (String.◌++◌ s t) ≡ cjk_count s + cjk_count t
unfolding cjk_count
cjk_count-append String.[] t = ground (arith, nil_append t)
cjk_count-append (String.◌∷◌ c s) t = ground (arith, cons_append c s t, cjk_count-append s t)

text_length-append : (s t : String) → text_length (String.◌++◌ s t) ≡ text_length s + text_length t
unfolding text_length
text_length-append String.[] t = ground (arith, nil_append t)
text_length-append (String.◌∷◌ c s) t = ground (arith, cons_append c s t, text_length-append s t)

-- Two texts together count at most as much as they count apart, and one less at least.
pub est_tokens-append :
    (s t : String)
    → (est_tokens (String.◌++◌ s t) ≤ est_tokens s + est_tokens t)
      × (est_tokens s + est_tokens t ≤ est_tokens (String.◌++◌ s t) + 1)
unfolding est_tokens
est_tokens-append s t =
    let a = cjk_count-append s t in
    let b = text_length-append s t in
    let c = cjk_count-le-length s in
    let d = cjk_count-le-length t in (omega (arith, a, b, c, d), omega (arith, a, b, c, d))

-- A text has at most four characters for each token, and at most one token for each character.
pub est_tokens-length :
    (s : String) → (text_length s ≤ 4 * est_tokens s) × (est_tokens s ≤ text_length s)
unfolding est_tokens
est_tokens-length s = let c = cjk_count-le-length s in (omega (arith, c), omega (arith, c))

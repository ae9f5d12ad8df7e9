-- ===== src/Query/Texts.antt =====
-- How many placeholders a text has.
use Prim.Native.Char.{code as code_point}
use Prim.Native.String.{◌++◌ as ◌++ˢ◌}
use text.Mathlib.TextLemmas.{cons-append, nil-append}
use mcp_proxy.Prelude.{List, String, [], eqb, if◌then◌else◌, refl, ℕ, ◌++◌, ◌∷◌, ◌+◌, ◌≡◌, arith}
use mcp_proxy.Cache.{join}

-- The occurrences of `?`.
unfoldable pub placeholders : String → ℕ
placeholders String.[] = 0
placeholders (String.◌∷◌ c s) =
    let rest = placeholders s in if eqb (code_point c) b'?' then 1 + rest else rest

pub placeholders-append : (s t : String) → placeholders (s ++ˢ t) ≡ placeholders s + placeholders t
unfolding placeholders
placeholders-append String.[] t = rw (nil-append t) (omega arith)
placeholders-append (String.◌∷◌ c s) t =
    rw (cons-append c s t) (ground (arith, placeholders-append s t))

abbrev pub all_placeholders : List String → ℕ
all_placeholders [] = 0
all_placeholders (s ∷ ss) = placeholders s + all_placeholders ss

pub all_placeholders-append :
    (ss ts : List String) → all_placeholders (ss ++ ts) ≡ all_placeholders ss + all_placeholders ts
all_placeholders-append [] ts = omega arith
all_placeholders-append (s ∷ ss) ts = omega (arith, all_placeholders-append ss ts)

pub placeholders-join :
    (ss : List String) (sep : String)
    → placeholders sep ≡ 0
    → placeholders (join ss sep) ≡ all_placeholders ss
unfolding join placeholders
placeholders-join [] sep h = refl
placeholders-join (s ∷ []) sep h = omega arith
placeholders-join (s ∷ t ∷ ss) sep h = omega (
  arith,
  placeholders-append s (sep ++ˢ join (t ∷ ss) sep),
  placeholders-append sep (join (t ∷ ss) sep),
  placeholders-join (t ∷ ss) sep h,
  h,
)

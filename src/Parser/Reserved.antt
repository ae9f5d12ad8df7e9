-- ===== src/Parser/Reserved.antt =====
-- The test for reserved names comes after the pattern, which already excludes the dot.
use mcp_proxy.Prelude.{Bool-cases, String, ap, false, inl, inr, sym, true, ◌∙◌, ◌≡◌}
use text.Mathlib.Text.{starts_with}
use Prim.Native.String.{◌++◌ as ◌++ˢ◌}
use mathlib.Core.Bool.{false≢true}
use text.Mathlib.TextEquality.{starts_with_iff}
use text.Mathlib.TextLemmas.{cons-append}
use mcp_proxy.Parser.{all_chars, matches_method}

-- A text that begins with "rpc." has a dot in fourth place.
dotted : (t : String) → matches_method ("rpc." ++ˢ t) ≡ false
unfolding matches_method
dotted t = rw (
  cons-append "r" "pc." t,
  matches_method,
  cons-append "p" "c." t,
  cons-append "c" "." t,
  cons-append "." "" t,
  all_chars,
)

-- A method name that matches the pattern never begins with the reserved "rpc.".
pub matches_method-not_reserved :
    (m : String) → matches_method m ≡ true → starts_with m "rpc." ≡ false
matches_method-not_reserved m h = elim (Bool-cases (starts_with m "rpc.")) [
  | inr e ↦ e
  | inl e ↦
      let (t, q) = (starts_with_iff m "rpc.").0 e in
      let z : matches_method m ≡ false = ap matches_method (sym q) ∙ dotted t in
      absurd (false≢true (sym z ∙ h))
]

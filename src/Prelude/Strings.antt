-- ===== src/Prelude/Strings.antt =====
-- Equality of strings, as a decision.
use text.Mathlib.Text.{◌==◌ as str_eq}
use text.Mathlib.TextEquality.{eq_iff}
use Prim.Native.String.{String}
use mathlib.Core.Logic.{inl, inr}
use async_substrate_interfac.Prelude.Tests.{Bool-cases}

unfoldable pub String-discrete : Discrete String
String-discrete s t = elim (Bool-cases (str_eq s t)) [
  | inl same ↦ yes ((eq_iff s t).0 same)
  | inr other ↦ no (λ p. cc (other, (eq_iff s t).1 p))
]

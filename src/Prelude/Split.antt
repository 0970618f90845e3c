-- ===== src/Prelude/Split.antt =====
-- Texts that are split at a character: `strings.SplitN(s, sep, 3)`.
use Prim.Native.Char.{code}
use Prim.Native.Nat.{ℕ}
use Prim.Native.String.{String}
use mathlib.Core.List.{List, [], ◌∷◌}
use mathlib.Core.Option.{Option, none, some}
use mkwanja_payment_service.Prelude.Tests.{◌==◌, if◌then◌else◌}

-- The texts before and after the first separator.
unfoldable pub cut : ℕ → String → Option (String × String)
cut sep String.[] = none
cut sep (String.◌∷◌ c s) =
    let rest = cut sep s in
    if code c == sep
    then some ("", s)
    else elim rest [ none ↦ none | some parts ↦ some (String.◌∷◌ c parts.0, parts.1) ]

unfoldable pub split_in_3 : ℕ → String → List String
unfolding cut
split_in_3 sep s = elim (cut sep s) [
  | none ↦ s ∷ []
  | some first ↦ elim (cut sep first.1) [
    | none ↦ first.0 ∷ first.1 ∷ []
    | some second ↦ first.0 ∷ second.0 ∷ second.1 ∷ []
  ]
]

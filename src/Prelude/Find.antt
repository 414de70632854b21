-- ===== src/Prelude/Find.antt =====
-- `strings.Index` and `strings.Contains`.
use Prim.Native.Nat.{ℕ, ◌+◌}
use mathlib.Core.Bool.{Bool}
use mathlib.Core.Option.{Option, none, some}
use mathlib.Core.List.{[], ◌∷◌}
use slipgate.Prelude.Tests.{if◌then◌else◌, is_some}
use slipgate.Prelude.Text.{Bytes, has_prefix}

-- `strings.Index(s, sub)`; `none` is -1
unfoldable pub index : Bytes → Bytes → Option ℕ
index [] sub = if has_prefix [] sub then some 0 else none
index (c ∷ s) sub =
    let later = index s sub in
    if has_prefix (c ∷ s) sub then some 0 else elim later [ none ↦ none | some i ↦ some (i + 1) ]

unfoldable pub contains : Bytes → Bytes → Bool
contains s sub = is_some (index s sub)

-- ===== src/Prelude/Literals.antt =====
-- The literals of the source as texts; each of their characters is a single UTF-16 unit.
use Prim.Native.Char.{code}
use Prim.Native.String.{String, [] as no_char, ◌∷◌ as ◌before◌}
use mathlib.Core.List.{[], ◌∷◌}
use kiro_fabric.Prelude.Strings.{Text}

unfoldable pub units : String → Text
units no_char = []
units (c before s) = code c ∷ units s

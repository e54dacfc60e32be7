-- ===== src/Prelude/Characters.antt =====
-- The characters of a text, each as a text, and its length in UTF-16 code units, by which JavaScript
-- measures it.
use Prim.Native.Nat.{ℕ, ◌+◌, ◌^◌}
use Prim.Native.Char.{Char, code}
use Prim.Native.String.{String, [] as empty, ◌∷◌ as ◌then◌}
use talenttrust_backend.Prelude.Tests.{if◌then◌else◌, ltb}
use mathlib.Core.List.{List, [], ◌∷◌}

abbrev pub characters : String → List String
characters empty = []
characters (c then s) = (c then empty) ∷ characters s

abbrev code_units : Char → ℕ
code_units c = if ltb (code c) (2 ^ 16) then 1 else 2

unfoldable pub utf16_length : String → ℕ
utf16_length empty = 0
utf16_length (c then s) = code_units c + utf16_length s

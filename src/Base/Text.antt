-- ===== src/Base/Text.antt =====
-- Texts walked character by character, and lists of bytes.
use Prim.Native.Char.{Char, code}
use Prim.Native.String.{String, [], ◌∷◌}
use Prim.Native.Nat.{ℕ, ◌+◌}
use mathlib.Core.Bool.{Bool, true, false, ◌&&◌, ◌||◌}
use mathlib.Core.List.{List}
use afghanistan_news.Base.Tests.{◌==◌, leb, if◌then◌else◌}

-- The code points of a text.
abbrev pub codes : String → List ℕ
codes [] = List.[]
codes (c ∷ s) = List.◌∷◌ (code c) (codes s)

abbrev pub prepend : Char → List String → List String
prepend c List.[] = List.◌∷◌ (c ∷ []) List.[]
prepend c (List.◌∷◌ l ls) = List.◌∷◌ (c ∷ l) ls

-- strings.Split(s, sep) for a separator of one character.
abbrev pub split_on : ℕ → String → List String
split_on sep [] = List.◌∷◌ [] List.[]
split_on sep (c ∷ s) =
    let rest = split_on sep s in if code c == sep then List.◌∷◌ [] rest else prepend c rest

abbrev pub is_prefix : List ℕ → List ℕ → Bool
is_prefix List.[] ys = true
is_prefix (List.◌∷◌ x xs) List.[] = false
is_prefix (List.◌∷◌ x xs) (List.◌∷◌ y ys) = x == y && is_prefix xs ys

-- strings.Contains
abbrev pub contains : List ℕ → List ℕ → Bool
contains List.[] needle = is_prefix needle List.[]
contains (List.◌∷◌ x xs) needle = is_prefix needle (List.◌∷◌ x xs) || contains xs needle

-- strings.ToLower on an ASCII letter; other code points stay.
abbrev pub lower_ascii : ℕ → ℕ
lower_ascii c = if leb 65 c && leb c 90 then c + 32 else c

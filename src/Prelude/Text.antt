-- ===== src/Prelude/Text.antt =====
-- What the program takes from Rust's `str`, over the native texts read as code points.
use Prim.Native.Char.{code}
use Prim.Native.Nat.{ℕ, zero, suc, ◌+◌, ◌-◌}
use Prim.Native.String.{String}
use mathlib.Core.Bool.{Bool, true, false, ◌&&◌}
use mathlib.Core.List.{List, [], ◌∷◌, ◌++◌, map}
use mathlib.Core.Option.{Option, none, some}
use magnarr.Prelude.Tests.{ltb, leb, ◌==◌, if◌then◌else◌}

abbrev pub codes : String → List ℕ
codes String.[] = []
codes (String.◌∷◌ c s) = code c ∷ codes s

-- The bytes that a code point takes in UTF-8.
unfoldable pub width : ℕ → ℕ
width c = if ltb c 0x80 then 1 else if ltb c 0x800 then 2 else if ltb c 0x10000 then 3 else 4

-- `&s[n..]`, which counts bytes: `none` is the panic past the end or inside a character.
unfoldable pub drop_bytes : ℕ → String → Option String
unfolding width
drop_bytes zero s = some s
drop_bytes (suc n) String.[] = none
drop_bytes (suc n) (String.◌∷◌ c s) =
    let rest = drop_bytes (suc n - width (code c)) s in
    if leb (width (code c)) (suc n) then rest else none

unfoldable pub starts_with : List ℕ → List ℕ → Bool
starts_with s [] = true
starts_with [] (q ∷ ps) = false
starts_with (c ∷ s) (q ∷ ps) = c == q && starts_with s ps

unfoldable pub same : List ℕ → List ℕ → Bool
same [] [] = true
same (a ∷ s) (b ∷ t) = a == b && same s t
same _ _ = false

unfoldable pub ascii_lower : ℕ → ℕ
ascii_lower c = if leb b'A' c && leb c b'Z' then c + 32 else c

-- `eq_ignore_ascii_case`
unfoldable pub eq_ignore_ascii_case : String → String → Bool
unfolding same ascii_lower
eq_ignore_ascii_case s t = same (map ascii_lower (codes s)) (map ascii_lower (codes t))

-- Unicode's lower case of a code point outside ASCII, from the code points before it, the point and
-- the text after it (the final sigma looks at both sides).
abbrev pub CaseTable : Type 0
CaseTable = List ℕ → ℕ → String → List ℕ

-- `str::to_lowercase`, as code points.
unfoldable pub to_lowercase_from : CaseTable → List ℕ → String → List ℕ
unfolding ascii_lower
to_lowercase_from table before String.[] = []
to_lowercase_from table before (String.◌∷◌ c s) =
    let rest = to_lowercase_from table (code c ∷ before) s in
    if ltb (code c) 128 then ascii_lower (code c) ∷ rest else table before (code c) s ++ rest

unfoldable pub to_lowercase : CaseTable → String → List ℕ
unfolding to_lowercase_from
to_lowercase table s = to_lowercase_from table [] s

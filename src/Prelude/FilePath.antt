-- ===== src/Prelude/FilePath.antt =====
-- Unix paths as `std::path` reads them: `/` separates, and empty and `.` segments do not count.
pub mod Laws
use Prim.Native.Char.{Char, code}
use Prim.Native.String.{String, ◌++◌ as ◌<>◌}
use Prim.Native.Nat.{ℕ}
use mathlib.Core.Bool.{Bool, true, false, ◌||◌, not}
use mathlib.Core.List.{List, [], ◌∷◌}
use mathlib.Core.Option.{Option, none, some}
use text.Mathlib.Text.{◌==◌ as str_eq}
use magnarr.Prelude.Tests.{◌==◌, if◌then◌else◌}
use magnarr.Prelude.Text.{codes}

-- The text between the slashes; `part` is what stands before.
unfoldable pub split_slash : String → String → List String
split_slash part String.[] = part ∷ []
split_slash part (String.◌∷◌ c s) = elim (code c == b'/') [
  | true ↦ part ∷ split_slash "" s
  | false ↦ split_slash (part <> (String.◌∷◌ c String.[])) s
]

-- `..` is no normal component.
unfoldable pub keep : String → Option String → Option String
keep part last =
    if str_eq part "" || str_eq part "." then last else if str_eq part ".." then none else some part

-- The last component, if it is a normal one.
unfoldable pub last_normal : Option String → List String → Option String
unfolding keep
last_normal last [] = last
last_normal last (part ∷ parts) = last_normal (keep part last) parts

-- `Path::file_name`
unfoldable pub file_name : String → Option String
unfolding split_slash last_normal
file_name path = last_normal none (split_slash "" path)

-- `Path::join` and `PathBuf::push`: an absolute path replaces, and one slash separates.
unfoldable pub is_absolute : String → Bool
is_absolute String.[] = false
is_absolute (String.◌∷◌ c s) = code c == b'/'

unfoldable pub ends_in_slash : String → Bool
ends_in_slash String.[] = false
ends_in_slash (String.◌∷◌ c String.[]) = code c == b'/'
ends_in_slash (String.◌∷◌ c (String.◌∷◌ d s)) = ends_in_slash (String.◌∷◌ d s)

unfoldable pub join : String → String → String
unfolding is_absolute ends_in_slash
join base path =
    if is_absolute path
    then path
    else if str_eq base "" || ends_in_slash base
    then base <> path
    else base <> ("/" <> path)

-- The parts from the last to the first, without those at the end that do not count; the first stays.
unfoldable pub trim : List String → List String
trim [] = []
trim (part ∷ []) = part ∷ []
trim (part ∷ before ∷ parts) =
    let rest = trim (before ∷ parts) in
    if str_eq part "" || str_eq part "." then rest else part ∷ before ∷ parts

unfoldable pub reversed : List String → List String → List String
reversed done [] = done
reversed done (part ∷ parts) = reversed (part ∷ done) parts

-- The text of the parts, which stand from the first to the last.
unfoldable pub rejoin : List String → String
rejoin [] = ""
rejoin (part ∷ []) = part
rejoin (part ∷ next ∷ parts) = part <> ("/" <> rejoin (next ∷ parts))

-- The parts in front of the last one; a first part that is empty is the root.
abbrev before_last : List String → Option String
before_last [] = none
before_last (part ∷ []) = if str_eq part "" then none else some ""
before_last (part ∷ front ∷ parts) = elim (trim (front ∷ parts)) [
  | [] ↦ none
  | only ∷ [] ↦ some (if str_eq only "" then "/" else only)
  | last ∷ next ∷ rest ↦ some (rejoin (reversed [] (last ∷ next ∷ rest)))
]

-- `Path::parent`
unfoldable pub parent : String → Option String
unfolding split_slash trim reversed rejoin
parent path = before_last (trim (reversed [] (split_slash "" path)))

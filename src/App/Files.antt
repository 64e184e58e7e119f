-- ===== src/App/Files.antt =====
-- `copy_recursive` of app/mod.rs over a tree of files. A path is the list of its components from the
-- root; there are no links. What a failed call has written before stays.
pub mod Lookup
pub mod Ends
pub mod Parts
pub mod Copies
use magnarr.Prelude.{
  ℕ, zero, suc, String, Bool, true, false, Option, none, some, List, [], ◌∷◌, ◌++◌,
}
use magnarr.Prelude.{Result, ok, err, str_eq, if◌then◌else◌, ◌>>=◌, ◌&&◌}
use mathlib.Core.Option

mutual
  pub data Node : Type 0 where
    file : List ℕ → Node
    dir : Entries → Node

  pub data Entries : Type 0 where
    nil : Entries
    cons : String → Node → Entries → Entries

pub data IoError : Type 0 where
  not_found already_exists not_a_directory is_a_directory invalid_input : IoError

abbrev pub Components : Type 0
Components = List String

unfoldable pub find : String → Entries → Option Node
find c nil = none
find c (cons d n es) = if str_eq c d then some n else find c es

-- The entry `c` becomes `n`; a new entry comes last.
unfoldable pub set : String → Node → Entries → Entries
set c n nil = cons c n nil
set c n (cons d m es) = if str_eq c d then cons d n es else cons d m (set c n es)

unfoldable pub names : Entries → List String
names nil = []
names (cons c n es) = c ∷ names es

unfoldable pub lookup : Components → Node → Option Node
unfolding find
lookup [] n = some n
lookup (c ∷ p) (file b) = none
lookup (c ∷ p) (dir es) = Option.bind (find c es) (lookup p)

abbrev pub or_empty : Option Node → Node
or_empty none = dir nil
or_empty (some n) = n

-- `create_dir_all`: only a file in the way makes it fail, and that is met before anything is made.
unfoldable pub create_dir_all : Components → Node → Result Node IoError
unfolding find set
create_dir_all [] (file b) = err already_exists
create_dir_all [] (dir es) = ok (dir es)
create_dir_all (c ∷ p) (file b) = err not_a_directory
create_dir_all (c ∷ p) (dir es) =
    create_dir_all p (or_empty (find c es)) >>= λ n. ok (dir (set c n es))

-- The bytes at a path whose parent is there, over what a file of that name held.
unfoldable pub write : List ℕ → Components → Option Node → Result Node IoError
unfolding find set
write b [] none = ok (file b)
write b [] (some (file _)) = ok (file b)
write b [] (some (dir _)) = err is_a_directory
write b (c ∷ p) none = err not_found
write b (c ∷ p) (some (file _)) = err not_a_directory
write b (c ∷ p) (some (dir es)) = write b p (find c es) >>= λ n. ok (dir (set c n es))

abbrev pub same_path : Components → Components → Bool
same_path [] [] = true
same_path (c ∷ p) (d ∷ q) = str_eq c d && same_path p q
same_path _ _ = false

-- `copy`: only files can be copied, and a file that is copied to itself is truncated first.
unfoldable pub copy : Components → Components → Node → Result Node IoError
unfolding lookup write
copy src dst root = elim (lookup src root) [
  | none ↦ err not_found
  | some (dir _) ↦ err invalid_input
  | some (file b) ↦ write (if same_path src dst then [] else b) dst (some root)
]

unfoldable pub is_dir : Components → Node → Bool
unfolding lookup
is_dir p root = elim (lookup p root) [ some (dir _) ↦ true | _ ↦ false ]

unfoldable pub read_dir : Components → Node → Result (List String) IoError
unfolding lookup names
read_dir p root = elim (lookup p root) [
  | none ↦ err not_found
  | some (file _) ↦ err not_a_directory
  | some (dir es) ↦ ok (names es)
]

-- All but the last component.
abbrev pub drop_last : String → List String → List String
drop_last c [] = []
drop_last c (d ∷ p) = c ∷ drop_last d p

-- `Path::parent`
unfoldable pub parent : Components → Option Components
parent [] = none
parent (c ∷ p) = some (drop_last c p)

-- The result of a call and the tree that it leaves; `none` where the fuel was not enough.
abbrev pub Ran : Type 0
Ran = Option (Result (Unit {0}) IoError × Node)

-- A step whose error ends the call.
abbrev pub then_do : Result Node IoError → Node → (Node → Ran) → Ran
then_do (err e) root f = some (err e, root)
then_do (ok root') root f = f root'

abbrev pub create_parent : Option Components → Node → Result Node IoError
create_parent none root = ok root
create_parent (some p) root = create_dir_all p root

unfoldable pub copy_file : Components → Components → Node → Ran
unfolding create_dir_all copy parent
copy_file src dst root =
    then_do (create_parent (parent dst) root) root
      λ root'. then_do (copy src dst root') root' λ root''. some (ok tt, root'')

abbrev pub on_ok : (Node → Ran) → Result (Unit {0}) IoError × Node → Ran
on_ok f (err e, root) = some (err e, root)
on_ok f (ok _, root) = f root

-- The loop over the names of a directory, with the call for one of them as an argument.
unfoldable pub copy_each :
    (Components → Components → Node → Ran) → Components → Components → List String → Node → Ran
copy_each call src dst [] root = some (ok tt, root)
copy_each call src dst (name ∷ rest) root =
    Option.bind (call (src ++ name ∷ []) (dst ++ name ∷ []) root)
      (on_ok (λ root'. copy_each call src dst rest root'))

abbrev pub listed : (List String → Node → Ran) → Result (List String) IoError → Node → Ran
listed f (err e) root = some (err e, root)
listed f (ok found) root = f found root

unfoldable pub copy_recursive : ℕ → Components → Components → Node → Ran
unfolding is_dir create_dir_all read_dir copy_each copy_file
copy_recursive zero src dst root = none
copy_recursive (suc fuel) src dst root =
    let into =
      then_do (create_dir_all dst root) root
        λ root'. listed (copy_each (copy_recursive fuel) src dst) (read_dir src root') root' in
    if is_dir src root then into else copy_file src dst root

-- ===== src/Tests/Unit/Importing.antt =====
-- The tests of `import_download` and `copy_recursive` in app/mod.rs. The reader of the files is the lookup
-- in the tree; a depth of three calls is enough for the trees below.
use magnarr.Prelude.{
  ℕ, String, ◌≡◌, refl, Bool, true, false, ◌&&◌, Option, none, some, List, [], ◌∷◌, Result, ok,
}
use magnarr.Prelude.{str_eq, is_some, ◌==◌}
use magnarr.Prelude.FilePath.{join, split_slash}
use magnarr.Types.Download.{Download, DownloadStatus, status_eq, new}
use magnarr.Prelude.Int.{pos}
use magnarr.App.Repository.{RepositoryError}
use magnarr.App.Files.{Node, file, dir, nil, cons, IoError, Components, lookup, copy_recursive}
use magnarr.App.Import.{import_download}
use magnarr.Store.{insert, get, update}
use magnarr.Tests.Unit.Doubles.{magnet, ok_torrent_client, new_app, empty, site, unwrap}
use mathlib.Core.Option

abbrev same_bytes : List ℕ → List ℕ → Bool
same_bytes [] [] = true
same_bytes (a ∷ as') (b ∷ bs) = a == b && same_bytes as' bs
same_bytes _ _ = false

-- `std::fs::read(path).unwrap() == bytes`
unfoldable holds_bytes : Components → List ℕ → Node → Bool
unfolding lookup
holds_bytes path bytes root = elim (lookup path root) [
  | some (file b) ↦ same_bytes b bytes
  | _ ↦ false
]

-- The record that the tests insert, with its content's name.
abbrev importing_download : String → Download
importing_download content = record (new (pos 500) magnet "/tmp/dst") {
  name = content;
  content_name = content;
  status = DownloadStatus.importing;
}

-- The record and the tree after the import of `content` from the tree `root`.
unfoldable imported : String → Node → Option (Result Download RepositoryError × Node)
unfolding import_download
imported content root =
    let A = new_app ok_torrent_client in
    let dl = importing_download content in
    let s = (A.R.insert dl none).1 in
    Option.map (λ (w, root'). (A.R.get dl.info_hash w.repository, root'))
      (import_download site A 3 dl (empty A s tt) root)

abbrev with_downloads : Node → Node
with_downloads content =
    dir (cons "tmp" (dir (cons "downloads" content (cons "dst" (dir nil) nil))) nil)

abbrev is_imported_to : String → Result Download RepositoryError → Bool
is_imported_to path r = unwrap r (λ dl.
    status_eq dl.status DownloadStatus.imported
    && elim dl.imported_path [ some p ↦ str_eq p path | none ↦ false ])

unfoldable import_download_transitions_to_imported_on_success : Bool
unfolding imported holds_bytes
import_download_transitions_to_imported_on_success =
    elim (imported "torrent-name" (
      with_downloads (
        dir (
          cons "torrent-name" (dir (cons "movie.mkv" (file (100 ∷ 97 ∷ 116 ∷ 97 ∷ [])) nil))
            nil)))) [
              | none ↦ false
              | some (r, root) ↦
                  is_imported_to "/tmp/dst/torrent-name" r
                  && is_some (lookup ("tmp" ∷ "dst" ∷ "torrent-name" ∷ "movie.mkv" ∷ []) root)
            ]

on_success : import_download_transitions_to_imported_on_success ≡ true
unfolding import_download_transitions_to_imported_on_success insert get update copy_recursive
    split_slash join Option.bind new status_eq
on_success = refl

unfoldable import_download_copies_single_file_to_file_destination : Bool
unfolding imported holds_bytes
import_download_copies_single_file_to_file_destination =
    elim (imported "single-file.mkv" (
      with_downloads (
        dir (
          cons "single-file.mkv"
            (file (118 ∷ 105 ∷ 100 ∷ 101 ∷ 111 ∷ 45 ∷ 100 ∷ 97 ∷ 116 ∷ 97 ∷ [])) nil)))) [
              | none ↦ false
              | some (r, root) ↦
                  is_imported_to "/tmp/dst/single-file.mkv" r
                  && holds_bytes ("tmp" ∷ "dst" ∷ "single-file.mkv" ∷ [])
                      (118 ∷ 105 ∷ 100 ∷ 101 ∷ 111 ∷ 45 ∷ 100 ∷ 97 ∷ 116 ∷ 97 ∷ []) root
            ]

single_file : import_download_copies_single_file_to_file_destination ≡ true
unfolding import_download_copies_single_file_to_file_destination insert get update copy_recursive
    split_slash join Option.bind new status_eq
single_file = refl

unfoldable import_download_transitions_to_failed_when_source_missing : Bool
unfolding imported
import_download_transitions_to_failed_when_source_missing =
    elim (imported "does-not-exist" (with_downloads (dir nil))) [
      | none ↦ false
      | some (r, root) ↦
          unwrap r (λ dl. status_eq dl.status DownloadStatus.failed && is_some dl.error)
    ]

source_missing : import_download_transitions_to_failed_when_source_missing ≡ true
unfolding import_download_transitions_to_failed_when_source_missing insert get update copy_recursive
    split_slash join Option.bind new status_eq
source_missing = refl

abbrev ran_well : Option (Result (Unit {0}) IoError × Node) → (Node → Bool) → Bool
ran_well (some (ok _, root)) check = check root
ran_well _ check = false

unfoldable copy_dir_recursive_copies_nested_structure : Bool
unfolding copy_recursive holds_bytes
copy_dir_recursive_copies_nested_structure =
    ran_well
      (copy_recursive 3 ("src" ∷ []) ("dst" ∷ []) (
        dir (
          cons "src"
            (dir (
              cons "file.txt" (file (104 ∷ 101 ∷ 108 ∷ 108 ∷ 111 ∷ [])) (
                cons "sub" (dir (cons "nested.txt" (file (119 ∷ 111 ∷ 114 ∷ 108 ∷ 100 ∷ [])) nil))
                  nil)))
            (cons "dst" (dir nil) nil))))
      (λ root.
        holds_bytes ("dst" ∷ "file.txt" ∷ []) (104 ∷ 101 ∷ 108 ∷ 108 ∷ 111 ∷ []) root
        && holds_bytes ("dst" ∷ "sub" ∷ "nested.txt" ∷ []) (119 ∷ 111 ∷ 114 ∷ 108 ∷ 100 ∷ []) root)

nested_structure : copy_dir_recursive_copies_nested_structure ≡ true
unfolding copy_dir_recursive_copies_nested_structure Option.bind
nested_structure = refl

unfoldable copy_dir_recursive_copies_file_to_file_destination : Bool
unfolding copy_recursive holds_bytes
copy_dir_recursive_copies_file_to_file_destination =
    ran_well
      (copy_recursive 3 ("src" ∷ "file.txt" ∷ []) ("dst" ∷ "nested" ∷ "file.txt" ∷ []) (
        dir (
          cons "src" (dir (cons "file.txt" (file (104 ∷ 101 ∷ 108 ∷ 108 ∷ 111 ∷ [])) nil))
            (cons "dst" (dir nil) nil))))
      (holds_bytes ("dst" ∷ "nested" ∷ "file.txt" ∷ []) (104 ∷ 101 ∷ 108 ∷ 108 ∷ 111 ∷ []))

file_destination : copy_dir_recursive_copies_file_to_file_destination ≡ true
unfolding copy_dir_recursive_copies_file_to_file_destination Option.bind
file_destination = refl

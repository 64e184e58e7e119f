-- ===== src/Tests/Imports.antt =====
-- Runs of the import of app/mod.rs, and the witnesses of what is proved of it.
use magnarr.Prelude.{
  ℕ, ◌<◌, ◌≡◌, refl, subst, arith, String, Bool, true, false, none, some, [], ◌∷◌, ◌++◌, sym,
}
use magnarr.Prelude.{Result, ok, str_eq, if◌then◌else◌}
use magnarr.Types.Download.{Download, importing, imported}
use magnarr.App.Repository.Contract.{View}
use magnarr.App.World.{World}
use magnarr.App.Files.{Node, file, dir, nil, cons, IoError, Components, copy_recursive, lookup}
use magnarr.App.Files.Lookup.{Disjoint}
use magnarr.App.Files.Ends.{depth, depth_of, Framed, copy_recursive-Ends}
use magnarr.App.Files.Copies.{copy_recursive_copies}
use magnarr.App.Import.{Site, source, destination, import_path, import_download, import_downloads}
use magnarr.App.Import.Placed.{import_download-Placed}
use magnarr.Prelude.Int.{pos}
use magnarr.Store.{update}
use magnarr.Tests.Slot.{slot_view}
use magnarr.App.Import.Step.{Import}
use magnarr.App.Import.Laws.{Apart, Fits, import_downloads-Import}
use magnarr.Prelude.FilePath.{split_slash, join}
use mathlib.Core.Option
use mathlib.Core.Option.{some-injective}
use magnarr.Tests.Fixtures.{deps, deps_contract, deps_view, submitted}

abbrev pub site : Site
site = record { download_dir = "/dl"; cwd = []; display = λ e. "denied"; cancelled = λ n. false }

abbrev waiting : Download
waiting = record submitted { status = importing; content_name = "Show.S01" }

abbrev pub waiting_world : World deps
waiting_world = record { repository = some waiting; torrent_client = tt; ticks = 9000 }

-- /dl/Show.S01/E01
abbrev pub tree : Node
tree = dir (cons "dl" (dir (cons "Show.S01" (dir (cons "E01" (file (1 ∷ 2 ∷ [])) nil)) nil)) nil)

abbrev pub src : Components
src = "dl" ∷ "Show.S01" ∷ []

abbrev pub dst : Components
dst = "shows" ∷ "Show.S01" ∷ []

pub apart : Disjoint src dst
apart = record { not_below = λ h. cc; not_above = λ h. cc }

pub low : depth_of (lookup src tree) < 2
unfolding lookup Option.bind depth
low = omega arith

copy_recursive-Ends_example :
    (r : Result (Unit {0}) IoError) × (root' : Node) × (copy_recursive 2 src dst tree
      ≡ some (r, root'))
    × Framed dst tree root'
copy_recursive-Ends_example = copy_recursive-Ends 2 src dst tree apart low

abbrev after_copy : Node
after_copy = dir (
    cons "dl" (dir (cons "Show.S01" (dir (cons "E01" (file (1 ∷ 2 ∷ [])) nil)) nil))
      (cons "shows" (dir (cons "Show.S01" (dir (cons "E01" (file (1 ∷ 2 ∷ [])) nil)) nil)) nil))

copied : copy_recursive 2 src dst tree ≡ some (ok tt, after_copy)
unfolding copy_recursive Option.bind
copied = refl

taken : (b : Bool) (x d : Download) → (if b then some x else none) ≡ some d → x ≡ d
taken true x d h = some-injective x d h
taken false x d h = cc

-- Copied to where it is, the file is emptied.
truncated :
    copy_recursive 2 src src tree
    ≡ some (ok tt, dir (cons "dl" (dir (cons "Show.S01" (dir (cons "E01" (file []) nil)) nil)) nil))
unfolding copy_recursive Option.bind
truncated = refl

-- The slot holds no other record.
only_stored :
    (x d : Download)
    → x.info_hash ≡ "AB12"
    → deps_contract.view (some x) d.info_hash ≡ some d
    → x ≡ d
only_stored x d named w =
    taken (str_eq d.info_hash x.info_hash) x d
      (subst (λ (v : deps.R.State → View). v (some x) d.info_hash ≡ some d) deps_view w)

pub stored-Apart :
    (x : Download)
    → x.info_hash ≡ "AB12"
    → Disjoint (source site x) (destination site x)
    → Apart site (deps_contract.view (some x))
stored-Apart x named split d e wd we =
    subst (λ y. Disjoint (source site y) (destination site e)) (only_stored x d named wd.0)
      (subst (λ y. Disjoint (source site x) (destination site y)) (only_stored x e named we.0)
        split)

pub stored-Fits :
    (x : Download) (fuel : ℕ)
    → x.info_hash ≡ "AB12"
    → depth_of (lookup (source site x) tree) < fuel
    → Fits site (deps_contract.view (some x)) fuel tree
stored-Fits x fuel named small d w =
    subst (λ y. depth_of (lookup (source site y) tree) < fuel) (only_stored x d named w.0) small

pub waiting_world-Apart : Apart site (deps_contract.view waiting_world.repository)
unfolding source destination split_slash join
waiting_world-Apart = stored-Apart waiting refl apart

pub waiting_world-Fits : Fits site (deps_contract.view waiting_world.repository) 2 tree
unfolding source split_slash join
waiting_world-Fits = stored-Fits waiting 2 refl low

import_downloads-Import_example :
    (w' : World deps) × (root' : Node) × (import_downloads site deps 2 waiting_world tree
      ≡ some (w', root'))
    × ((h : String)
        → Import site
            (deps_contract.view waiting_world.repository h)
            (deps_contract.view w'.repository h))
import_downloads-Import_example =
    import_downloads-Import site deps deps_contract 2 waiting_world tree waiting_world-Apart
      waiting_world-Fits

copy_recursive_copies_example :
    lookup ("shows" ∷ "Show.S01" ∷ "E01" ∷ []) after_copy ≡ some (file (1 ∷ 2 ∷ []))
unfolding lookup Option.bind
copy_recursive_copies_example =
    copy_recursive_copies 2 src dst tree after_copy ("E01" ∷ []) (1 ∷ 2 ∷ []) apart low copied refl

abbrev placed : Download
placed = record waiting {
  status = imported;
  imported_path = some "/shows/Show.S01";
  updated_at = pos 9000;
}

abbrev placed_world : World deps
placed_world = record { repository = some placed; torrent_client = tt; ticks = 9001 }

waiting_placed :
    import_download site deps 2 waiting waiting_world tree ≡ some (placed_world, after_copy)
unfolding import_download copy_recursive Option.bind split_slash join update
waiting_placed = refl

-- A record of the info hash that the slot holds.
stored_as :
    (x : Download)
    → slot_view (some x) "AB12" ≡ some x
    → deps_contract.view (some x) "AB12" ≡ some x
stored_as x h = subst (λ (v : deps.R.State → View). v (some x) "AB12" ≡ some x) (sym deps_view) h

waiting-Disjoint : Disjoint (source site waiting) (destination site waiting)
unfolding source destination split_slash join
waiting-Disjoint = apart

waiting_low : depth_of (lookup (source site waiting) tree) < 2
unfolding source split_slash join
waiting_low = low

waiting_file : lookup (source site waiting ++ "E01" ∷ []) tree ≡ some (file (1 ∷ 2 ∷ []))
unfolding source split_slash join lookup Option.bind
waiting_file = refl

import_download-Placed_example :
    (placed.imported_path ≡ some (import_path site waiting))
    × (lookup (destination site waiting ++ "E01" ∷ []) after_copy ≡ some (file (1 ∷ 2 ∷ [])))
import_download-Placed_example =
    import_download-Placed site deps deps_contract waiting waiting_world (stored_as waiting refl)
      refl 2 tree after_copy placed_world placed ("E01" ∷ []) (1 ∷ 2 ∷ []) waiting-Disjoint
      waiting_low waiting_placed (stored_as placed refl) refl waiting_file

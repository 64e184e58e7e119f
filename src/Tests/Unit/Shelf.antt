-- ===== src/Tests/Unit/Shelf.antt =====
-- A collection with room for any number of records, in the order of their creation and, at one time, of
-- their info hashes. The key of an entry is the scan's index, the status of a scan by status, the time
-- and the info hash.
use magnarr.Prelude.{ℕ, String, Bool, true, false, ◌&&◌, Option, none, some, List, [], ◌∷◌, ◌++◌}
use magnarr.Prelude.{Result, ok, err, map, str_eq, ltb, ◌==◌, if◌then◌else◌}
use magnarr.Prelude.Int.{pos_part}
use magnarr.Prelude.Text.{codes}
use magnarr.Types.Download.{Download}
use magnarr.Store.{Collection, CollectionError, not_found, already_exists, cursor_out_of_bounds}
use magnarr.Store.{ScanRequest, IndexEntry, created_at, status_and_created_at}
use magnarr.Store.{Direction, left_to_right, right_to_left, Cursor, no_key, key, status_key}
use magnarr.Tests.Slot.{micros, selects}

abbrev pub Shelf : Type 0
Shelf = List Download

abbrev lookup : String → Shelf → Option Download
lookup h [] = none
lookup h (d ∷ ds) = let rest = lookup h ds in if str_eq d.info_hash h then some d else rest

abbrev without : String → Shelf → Shelf
without h [] = []
without h (d ∷ ds) = let rest = without h ds in if str_eq d.info_hash h then rest else d ∷ rest

-- The lexicographic order.
abbrev pub precedes : List ℕ → List ℕ → Bool
precedes [] _ = true
precedes (a ∷ as') [] = false
precedes (a ∷ as') (b ∷ bs) = let rest = precedes as' bs in if a == b then rest else ltb a b

abbrev pub key_of : Download → List ℕ
key_of d = pos_part (micros d.created_at) ∷ codes d.info_hash

abbrev put : Download → Shelf → Shelf
put d [] = d ∷ []
put d (e ∷ es) =
    let rest = put d es in if precedes (key_of d) (key_of e) then d ∷ e ∷ es else e ∷ rest

abbrev pub scan_key : ScanRequest → List ℕ
unfolding status_key
scan_key r = elim r.index [
  | created_at ↦ 0 ∷ []
  | status_and_created_at ↦ 1 ∷ elim r.prefix [ none ↦ [] | some st ↦ status_key st ∷ [] ]
]

-- The entries of a scan, from the first or from the last.
abbrev pub entries : ScanRequest → Shelf → List IndexEntry
entries r [] = []
entries r (d ∷ ds) =
    let rest = entries r ds in
    let entry : IndexEntry = record { key = key (scan_key r ++ key_of d); item = d } in
    if selects r d
    then elim r.direction [ left_to_right ↦ entry ∷ rest | right_to_left ↦ rest ++ entry ∷ [] ]
    else rest

abbrev begins : List ℕ → List ℕ → Bool
begins [] _ = true
begins (a ∷ as') [] = false
begins (a ∷ as') (b ∷ bs) = a == b && begins as' bs

-- Whether the entry stands behind the key, in the direction of the scan.
abbrev is_behind : Direction → List ℕ → Cursor → Bool
is_behind dir k no_key = false
is_behind left_to_right k (key c) = if precedes c k then false else true
is_behind right_to_left k (key c) = if precedes k c then false else true

abbrev behind : Direction → List ℕ → List IndexEntry → List IndexEntry
behind dir k [] = []
behind dir k (e ∷ es) =
    let rest = behind dir k es in if is_behind dir k e.key then e ∷ rest else rest

abbrev iter :
    ScanRequest → Shelf → Result (List (Result IndexEntry CollectionError)) CollectionError
iter r s = elim r.after [
  | no_key ↦ ok (map ok (entries r s))
  | key k ↦
      if begins (scan_key r) k
      then ok (map ok (behind r.direction k (entries r s)))
      else err cursor_out_of_bounds
]

abbrev pub shelf : Collection
shelf = record {
  State = Shelf;
  insert = λ d s. elim (lookup d.info_hash s) [
    | none ↦ (ok tt, put d s)
    | some e ↦ (err (already_exists d.info_hash), s)
  ];
  get = λ h s. ok (lookup h s);
  update = λ d s. elim (lookup d.info_hash s) [
    | none ↦ (err (not_found d.info_hash), s)
    | some e ↦ (ok tt, put d (without d.info_hash s))
  ];
  remove =
      λ h s. elim (lookup h s) [ none ↦ (err (not_found h), s) | some e ↦ (ok tt, without h s) ];
  iter = iter;
}

-- ===== src/Tests/Slot.antt =====
-- A collection with room for one record, which keeps what store/download.rs relies on.
use magnarr.Prelude.{
  ℕ, ◌/◌, ◌≡◌, refl, ap, String, Bool, true, false, ◌&&◌, Option, none, some, List, [], ◌∷◌, ◌++◌,
  map,
}
use magnarr.Prelude.{
  Result, ok, err, collect, str_eq, if◌then◌else◌, ◌==◌, arith, eq_iff, Bool-cases, inl, inr,
}
use magnarr.Prelude.{◌↔◌, ==_iff, ok-injective, subst, sym, ◌∙◌, length, length-append, ◌≤◌}
use magnarr.Prelude.Int.{ℤ, pos, negsuc, leb_ℤ}
use magnarr.Types.Download.{DateTime, Download, DownloadStatus}
use magnarr.App.Repository.Contract.{View, put, Writes}
use magnarr.Store.{Collection, CollectionError, not_found, already_exists, ScanRequest, IndexEntry}
use magnarr.Store.{
  Direction, left_to_right, right_to_left, index_key, Cursor, no_key, key, status_key,
}
use magnarr.Store.Promises.{HasPrefix, InRange, Ordered, KeyLe, IsCollection, Scanned, Selected}

-- Nanoseconds to microseconds, rounded down.
abbrev pub micros : DateTime → ℤ
micros (pos n) = pos (n / 1000)
micros (negsuc n) = negsuc (n / 1000)

abbrev pub slot_view : Option Download → View
slot_view none h = none
slot_view (some d) h = if str_eq h d.info_hash then some d else none

abbrev pub slot_insert :
    Download → Option Download → Result (Unit {0}) CollectionError × Option Download
slot_insert d none = (ok tt, some d)
slot_insert d (some e) = (err (already_exists e.info_hash), some e)

abbrev pub slot_update :
    Download → Option Download → Result (Unit {0}) CollectionError × Option Download
slot_update d none = (err (not_found d.info_hash), none)
slot_update d (some e) =
    if str_eq d.info_hash e.info_hash
    then (ok tt, some d)
    else (err (not_found d.info_hash), some e)

abbrev pub slot_remove :
    String → Option Download → Result (Unit {0}) CollectionError × Option Download
slot_remove h none = (err (not_found h), none)
slot_remove h (some e) = if str_eq h e.info_hash then (ok tt, none) else (err (not_found h), some e)

unfoldable pub has_prefix : Option DownloadStatus → Download → Bool
unfolding status_key
has_prefix none d = true
has_prefix (some st) d = status_key d.status == status_key st

abbrev pub in_range : Option ℤ → Download → Bool
in_range none d = true
in_range (some t) d = leb_ℤ t (micros d.created_at)

unfoldable pub selects : ScanRequest → Download → Bool
unfolding has_prefix
selects r d = has_prefix r.prefix d && in_range r.range_from d

abbrev pub slot_list : ScanRequest → Option Download → List (Result IndexEntry CollectionError)
slot_list r none = []
slot_list r (some d) = if selects r d then ok (record { key = key (0 ∷ []); item = d }) ∷ [] else []

abbrev pub slot_after :
    Cursor → List (Result IndexEntry CollectionError) → List (Result IndexEntry CollectionError)
slot_after no_key l = l
slot_after (key k) l = []

abbrev pub slot : Collection
slot = record {
  State = Option Download;
  insert = slot_insert;
  get = λ h s. ok (slot_view s h);
  update = slot_update;
  remove = slot_remove;
  iter = λ r s. ok (slot_after r.after (slot_list r s));
}

pub slot-keyed :
    (s : Option Download) (h : String) (d : Download) → slot_view s h ≡ some d → d.info_hash ≡ h
slot-keyed none h d e = cc
slot-keyed (some x) h d e = ground (arith, eq_iff h x.info_hash)

pub slot-insert-Writes :
    (d : Download) (s : Option Download)
    → Writes
        (slot_view s)
        (put d.info_hash (some d) (slot_view s))
        (slot_view (slot_insert d s).1)
        (slot_insert d s).0
slot-insert-Writes d none = λ j. refl
slot-insert-Writes d (some e) = λ j. refl

pub slot-insert_fresh :
    (d : Download) (s : Option Download)
    → (slot_insert d s).0 ≡ ok tt
    → slot_view s d.info_hash ≡ none
slot-insert_fresh d none h = refl
slot-insert_fresh d (some e) h = cc

pub slot-update-Writes :
    (d : Download) (s : Option Download)
    → Writes
        (slot_view s)
        (put d.info_hash (some d) (slot_view s))
        (slot_view (slot_update d s).1)
        (slot_update d s).0
slot-update-Writes d none = λ j. refl
slot-update-Writes d (some e) = elim (Bool-cases (str_eq d.info_hash e.info_hash)) [
  | inr other ↦ rw other (λ j. refl)
  | inl same ↦ rw same (λ j. ground (arith, eq_iff d.info_hash e.info_hash))
]

pub slot-remove-Writes :
    (h : String) (s : Option Download)
    → Writes
        (slot_view s)
        (put h none (slot_view s))
        (slot_view (slot_remove h s).1)
        (slot_remove h s).0
slot-remove-Writes h none = λ j. refl
slot-remove-Writes h (some e) = elim (Bool-cases (str_eq h e.info_hash)) [
  | inr other ↦ rw other (λ j. refl)
  | inl same ↦ rw same (λ j. ground (arith, eq_iff h e.info_hash))
]

has_prefix_iff :
    (p : Option DownloadStatus) (d : Download) → (has_prefix p d ≡ true) ↔ HasPrefix p d
unfolding has_prefix
has_prefix_iff none d = ((λ h. tt), λ h. refl)
has_prefix_iff (some st) d = ==_iff (status_key d.status) (status_key st)

in_range_iff : (t : Option ℤ) (d : Download) → (in_range t d ≡ true) ↔ InRange micros t d
in_range_iff none d = ((λ h. tt), λ h. refl)
in_range_iff (some t) d = ground arith

selects_iff : (r : ScanRequest) (d : Download) → (selects r d ≡ true) ↔ Selected slot micros r d
unfolding selects
selects_iff r d = ground (arith, has_prefix_iff r.prefix d, in_range_iff r.range_from d)

-- A scan that starts at the beginning lists the record if it is selected.
nothing :
    (v : View) (r : ScanRequest)
    → ((d : Download) → v d.info_hash ≡ some d → Selected slot micros r d → ⊥)
    → Scanned slot micros v r []
nothing v r none_selected = record {
  stored = tt;
  distinct = tt;
  complete = none_selected;
  ordered = tt;
}

single :
    (x : Download) (r : ScanRequest)
    → Selected slot micros r x
    → Scanned slot micros (slot_view (some x)) r (x ∷ [])
single x r selected = record {
  stored = ((ground (arith, eq_iff x.info_hash x.info_hash), selected), tt);
  distinct = (tt, tt);
  complete = λ d held _. inl (ground (arith, held));
  ordered = ordered_single r.direction;
}
  where
    ordered_single :
        (dir : Direction)
        → Ordered
            (λ (d e : Download).
              KeyLe (index_key slot micros r.index d) (index_key slot micros r.index e))
            dir
            (x ∷ [])
    ordered_single left_to_right = (tt, tt)
    ordered_single right_to_left = (tt, tt)

abbrev Shown : Option Download → ScanRequest → List IndexEntry → Type 0
Shown s r es = Scanned slot micros (slot_view s) r (map (λ (e : IndexEntry). e.item) es)

listed-Scanned :
    (s : Option Download) (r : ScanRequest) (es : List IndexEntry)
    → collect (slot_list r s) ≡ ok es
    → Scanned slot micros (slot_view s) r (map (λ (e : IndexEntry). e.item) es)
listed-Scanned none r es h = subst (Shown none r) (ok-injective h) (nothing _ r (λ d held sel. cc))
listed-Scanned (some x) r es h = elim (Bool-cases (selects r x)) [
  | inl taken ↦
      subst (Shown (some x) r) (collected_one taken) (single x r ((selects_iff r x).0 taken))
  | inr left ↦
      subst (Shown (some x) r) (collected_none left)
        (nothing _ r (λ d held sel. absurd (ground (arith, held, left, selects_iff r d))))
]
  where
    collected_one : selects r x ≡ true → (record { key = key (0 ∷ []); item = x }) ∷ [] ≡ es
    collected_one taken = ok-injective (rw taken at h)

    collected_none : selects r x ≡ false → [] ≡ es
    collected_none left = ok-injective (rw left at h)

pub slot-scans :
    (request : ScanRequest) (s : Option Download) (items : List (Result IndexEntry CollectionError))
    (es : List IndexEntry)
    → request.after ≡ no_key
    → slot.iter request s ≡ ok items
    → collect items ≡ ok es
    → Scanned slot micros (slot_view s) request (map (λ (e : IndexEntry). e.item) es)
slot-scans request s items es start listed collected = listed-Scanned s request es (
    ap collect (subst (λ c. slot_after c (slot_list request s) ≡ items) start (ok-injective listed))
    ∙ collected)

slot_list-short : (s : Option Download) (r : ScanRequest) → length (slot_list r s) ≤ 1
slot_list-short none r = omega arith
slot_list-short (some x) r = ground arith

empty_of : (l : List (Result IndexEntry CollectionError)) → length l ≡ 0 → l ≡ []
empty_of [] h = refl
empty_of (x ∷ l) h = absurd (omega arith)

pub slot-resumes :
    (request : ScanRequest) (s : Option Download)
    (before behind : List (Result IndexEntry CollectionError)) (d : Download) (k : List ℕ)
    → request.after ≡ no_key
    → slot.iter request s ≡ ok (before ++ ok (record { key = key k; item = d }) ∷ behind)
    → slot.iter (record request { after = key k }) s ≡ ok behind
slot-resumes request s before behind d k start listed =
    let whole =
      subst
        (λ c.
          slot_after c (slot_list request s)
          ≡ before ++ ok (record { key = key k; item = d }) ∷ behind)
        start (ok-injective listed) in
    let short : length behind ≡ 0 = omega (
      arith,
      slot_list-short s request,
      ap length whole,
      length-append before (ok (record { key = key k; item = d }) ∷ behind),
    ) in
    ap ok (sym (empty_of behind short))

abbrev pub slot_promises : IsCollection slot micros
slot_promises = record {
  view = slot_view;
  keyed = slot-keyed;
  gets = λ h s. refl;
  insert_writes = slot-insert-Writes;
  insert_fresh = slot-insert_fresh;
  update_writes = slot-update-Writes;
  remove_writes = slot-remove-Writes;
  scans = slot-scans;
  resumes = slot-resumes;
}

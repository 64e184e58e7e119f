-- ===== src/Tests/Unit/Mock.antt =====
-- The mock of the service in the tests of graphql/schema.rs. It keeps its downloads only: the call that it
-- records is not seen. A cursor's text has the cursor's bytes as characters.
use Prim.Native.Char.{Char, code}
use magnarr.Prelude.{ℕ, zero, suc, ◌+◌, ◌*◌, ◌/◌, ◌%◌, ◌^◌, String, ◌<>◌, Bool, true}
use magnarr.Prelude.{◌&&◌, Option, none, some, List, [], ◌∷◌, ◌++◌, map, ok, err}
use magnarr.Prelude.{ltb, ◌==◌, if◌then◌else◌}
use magnarr.Prelude.Int.{pos, pos_part}
use magnarr.Prelude.Text.{codes, same}
use magnarr.Types.Magnet.{Magnet}
use magnarr.Types.Download as D
use magnarr.Types.Download.{Download, DateTime, status_eq, new}
use magnarr.App.Repository.{DownloadCursor, DownloadEntry, SortOrder, asc, desc}
use magnarr.App.Errors.{already_exists}
use magnarr.App.Service.{DownloadService}
use magnarr.Graphql.Schema.{Base64}
use magnarr.Tests.Slot.{micros}
use magnarr.Tests.Unit.Shelf.{precedes}

-- The bytes of the cursors.
abbrev alphabet : String
alphabet = "0123456789:ABCDEF"

abbrev char_in : String → ℕ → Char
char_in String.[] n = "?"
char_in (String.◌∷◌ c s) n = let rest = char_in s n in if code c == n then c else rest

abbrev encode : List ℕ → String
encode [] = ""
encode (n ∷ ns) = String.◌∷◌ (char_in alphabet n) (encode ns)

abbrev pub base64 : Base64
base64 = record { encode = encode; decode = λ s. some (codes s) }

-- The decimal digits of a number below ten to the fuel.
abbrev digits : ℕ → ℕ → List ℕ
digits zero n = []
digits (suc fuel) n =
    let rest = digits fuel (n / 10) in
    let last : List ℕ = (b'0' + n % 10) ∷ [] in if ltb n 10 then last else rest ++ last

-- `format!("{}:{}", created_at.timestamp_micros(), info_hash).into_bytes()`
unfoldable download_cursor : Download → DownloadCursor
download_cursor d = record {
  raw = digits 10 (pos_part (micros d.created_at)) ++ b':' ∷ codes d.info_hash;
}

-- The pair that the mock sorts by; the times are not negative.
abbrev order_key : DateTime → String → List ℕ
order_key t info_hash = pos_part t ∷ codes info_hash

abbrev put : Download → List Download → List Download
put d [] = d ∷ []
put d (e ∷ es) =
    let rest = put d es in
    if precedes (order_key d.created_at d.info_hash) (order_key e.created_at e.info_hash)
    then d ∷ e ∷ es
    else e ∷ rest

abbrev sort : List Download → List Download
sort [] = []
sort (d ∷ ds) = put d (sort ds)

abbrev reverse : List Download → List Download
reverse [] = []
reverse (d ∷ ds) = reverse ds ++ d ∷ []

abbrev has_status : Option D.DownloadStatus → Download → Bool
has_status none d = true
has_status (some status) d = status_eq d.status status

abbrev in_range : Option DateTime → SortOrder → Download → Bool
in_range none order d = true
in_range (some from) asc d = precedes (order_key from "") (order_key d.created_at d.info_hash)
in_range (some from) desc d = precedes (order_key d.created_at d.info_hash) (order_key from "")

-- The entries of the downloads that the filter keeps.
abbrev kept : (Download → Bool) → List Download → List DownloadEntry
kept keep [] = []
kept keep (d ∷ ds) =
    let rest = kept keep ds in
    let entry : DownloadEntry = record { download = d; cursor = download_cursor d } in
    if keep d then entry ∷ rest else rest

-- `entries.drain(..=position)`, where the cursor is found.
abbrev drained : DownloadCursor → List DownloadEntry → Option (List DownloadEntry)
drained c [] = none
drained c (e ∷ es) = let rest = drained c es in if same e.cursor.raw c.raw then some es else rest

abbrev behind : Option DownloadCursor → List DownloadEntry → List DownloadEntry
behind none es = es
behind (some c) es = elim (drained c es) [ none ↦ es | some rest ↦ rest ]

abbrev ordered : SortOrder → List Download → List Download
ordered asc ds = sort ds
ordered desc ds = reverse (sort ds)

-- `download` is not implemented, and nothing below calls it.
unfoldable pub mock_service : DownloadService
unfolding download_cursor status_eq same
mock_service = record {
  State = List Download;
  download = λ magnet target_dir s. (err already_exists, s);
  downloads = λ status from after order s. ok (
      map ok (
        behind after (kept (λ d. has_status status d && in_range from order d) (ordered order s))));
}

abbrev magnet_of : String → String → Magnet
magnet_of info_hash name = record {
  raw = "magnet:?xt=urn:btih:" <> info_hash <> "&dn=" <> name;
  info_hash = info_hash;
  name = some name;
}

unfoldable at : ℕ → D.DownloadStatus → Magnet → Download
unfolding new
at seconds status magnet = record (new (pos 500) magnet "/downloads") {
  status = status;
  created_at = pos (seconds * 10 ^ 9);
  updated_at = pos (seconds * 10 ^ 9);
}

unfoldable pub new_mock_service : List Download
unfolding at
new_mock_service =
    at 10 D.DownloadStatus.queued (magnet_of "ABCDEF1234567890ABCDEF1234567890ABCDEF12" "first")
    ∷ at 20 D.DownloadStatus.submitted
        (magnet_of "FEDCBA0987654321FEDCBA0987654321FEDCBA09" "second")
    ∷ at 30 D.DownloadStatus.submitted
        (magnet_of "1111111111111111111111111111111111111111" "third")
    ∷ []

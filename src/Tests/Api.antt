-- ===== src/Tests/Api.antt =====
-- Runs of graphql/schema.rs, and the witnesses of what is proved of it.
use Prim.Native.Char.{code}
use magnarr.Prelude.{
  ℕ, zero, suc, ◌+◌, ◌≤◌, ◌≡◌, refl, ap, arith, String, none, some, Option, false, List, [], ◌∷◌,
  ◌++◌,
}
use magnarr.Prelude.{subst, ◌∙◌, map, Result, ok, err, drop, length, ◌==◌, if◌then◌else◌}
use magnarr.Prelude.Int.{pos}
use magnarr.App.Repository.{desc, DownloadCursor, DownloadEntry}
use magnarr.App.Errors.{AppError, already_exists}
use magnarr.App.Service.{DownloadService}
use magnarr.App.Listing
use magnarr.App.Listing.{app_service}
use magnarr.Graphql.Types.{into_app}
use magnarr.Graphql.Schema.{or_default, Base64, DownloadsArgs, to_edge, downloads}
use magnarr.Graphql.Schema.Laws.{page, listing, downloads-page, downloads-bounds}
use magnarr.Graphql.Schema.Pages.{IsCodec, Resumes, walk, walk-listing}
use magnarr.Store.{scan_all}
use magnarr.Store.Paging.{walk-Listed}
use magnarr.Store.Listing.{Listed}
use magnarr.Tests.Slot.{slot, micros, slot_promises, selects}
use magnarr.Tests.Fixtures.{client, reading, deps, submitted, world}
use mathlib.Core.Option

-- Bytes in unary, each ended by a dot.
abbrev encode_byte : ℕ → String → String
encode_byte zero s = String.◌∷◌ "." s
encode_byte (suc n) s = String.◌∷◌ "a" (encode_byte n s)

abbrev encode : List ℕ → String
encode [] = ""
encode (n ∷ ns) = encode_byte n (encode ns)

abbrev decode : ℕ → String → Option (List ℕ)
decode n String.[] = some []
decode n (String.◌∷◌ c s) =
    let next = decode 0 s in
    let longer = decode (suc n) s in if code c == b'.' then Option.map (◌∷◌ n) next else longer

abbrev pub base64 : Base64
base64 = record { encode = encode; decode = decode 0 }

zero-add : (n : ℕ) → 0 + n ≡ n
zero-add n = omega arith

suc_comm : (k n : ℕ) → suc k + n ≡ k + suc n
suc_comm k n = omega arith

decode-encode_byte :
    (n k : ℕ) (s : String) → decode k (encode_byte n s) ≡ Option.map (◌∷◌ (k + n)) (decode 0 s)
decode-encode_byte zero k s = ground arith
decode-encode_byte (suc n) k s = decode-encode_byte n (suc k) s ∙ rw (suc_comm k n) refl

decode-encode : (bytes : List ℕ) → decode 0 (encode bytes) ≡ some bytes
decode-encode [] = refl
decode-encode (n ∷ ns) =
    decode-encode_byte n 0 (encode ns)
    ∙ rw (decode-encode ns) (ap (λ m. some (m ∷ ns)) (zero-add n))

pub base64-IsCodec : IsCodec base64
base64-IsCodec = record { decode-encode = decode-encode }

abbrev entry : ℕ → DownloadEntry
entry n = record { download = submitted; cursor = record { raw = n ∷ [] } }

abbrev entries : List DownloadEntry
entries = entry 0 ∷ entry 1 ∷ []

abbrev behind : Option DownloadCursor → List DownloadEntry
behind none = entries
behind (some c) = elim c.raw [ [] ↦ [] | n ∷ _ ↦ drop (suc n) entries ]

-- A service with two downloads.
abbrev service : DownloadService
service = record {
  State = Unit;
  download = λ m t s. (err already_exists, s);
  downloads = λ status from after order s. ok (map ok (behind after));
}

abbrev args : DownloadsArgs
args = record { status = none; from = none; after = none; first = pos 1; order = none }

abbrev Follows : DownloadEntry → List DownloadEntry → Type 0
Follows e rest =
    ◌≡◌ {A = Result (List (Result DownloadEntry AppError)) AppError}
      (ok (map ok (behind (some e.cursor)))) (ok (map ok rest))

abbrev BehindFirst : List DownloadEntry → Type 0
BehindFirst [] = Unit
BehindFirst (e ∷ rest) = Follows e rest

abbrev BehindSecond : List DownloadEntry → Type 0
BehindSecond [] = Unit
BehindSecond (x ∷ rest) = BehindFirst rest

service-Resumes : Resumes base64 service 50 args tt entries
service-Resumes = record { start = refl; resume = resume }
  where
    resume :
        (before : List DownloadEntry) (e : DownloadEntry) (rest : List DownloadEntry)
        → entries ≡ before ++ e ∷ rest
        → Follows e rest
    resume [] e rest h = subst BehindFirst h refl
    resume (x ∷ []) e rest h = subst BehindSecond h refl
    resume (x ∷ y ∷ []) e rest h = absurd (omega (arith, ap length h))
    resume (x ∷ y ∷ z ∷ before) e rest h = absurd (omega (arith, ap length h))

walk-listing_example : walk base64 service 50 3 args tt ≡ ok (map (to_edge base64) entries)
walk-listing_example =
    walk-listing base64 service 50 args tt entries 0 3 base64-IsCodec service-Resumes refl
      (omega arith) (omega arith)

downloads-page_example : downloads base64 service 50 args tt ≡ ok (page base64 false 1 entries)
downloads-page_example =
    downloads-page base64 service 50 args tt none 1 entries refl refl (omega arith) refl

first_page : downloads base64 service 50 args tt ≡ ok (page base64 false 1 entries)
unfolding downloads
first_page = refl

downloads-bounds_example :
    (limit : ℕ) × (pos 1 ≡ pos limit) × (limit ≤ 50) × (1 ≤ limit) × (false ≡ false)
downloads-bounds_example = downloads-bounds base64 service 50 args tt first_page

listed : listing base64 (app_service deps) 50 args none world ≡ ok (map ok (entry 0 ∷ []))
unfolding Listing.downloads scan_all selects
listed = refl

walk-Listed_example :
    (walk base64 (app_service deps) 50 2 args world ≡ ok (map (to_edge base64) (entry 0 ∷ [])))
    × Listed micros (slot_promises.view (some submitted)) none none desc (submitted ∷ [])
unfolding into_app or_default
walk-Listed_example =
    walk-Listed slot micros slot_promises client reading base64 50 args world (entry 0 ∷ []) 0 2
      base64-IsCodec refl (omega arith) listed (omega arith)

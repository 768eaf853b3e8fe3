-- ===== src/Fetcher/Cache/Store/Tests.antt =====
-- The cache on one file, with a memo that remembers another.
use flx.Base.{
  length, List_eq, ℕ_eq, ℕ, ◌≡◌, refl, List, [], ◌∷◌, none, some, Option, true, false, arith, ◌≤◌,
}
use flx.Base.Bytes.{Bytes, codes}
use flx.Base.Dict.{lookup}
use flx.Base.Outcome.{returned}
use flx.Fetcher.Cache.Rows.{Row, encode_rows}
use flx.Fetcher.Cache.Store.{
  forget, Memo, Cache, cache_file_name, load_rows, store_rows, memo_max_entries,
}
use flx.Fetcher.Cache.Store.Install.{lookup-store_rows, load-store_rows}
use flx.Fetcher.Cache.Store.Recall.{
  IsCoherent, load_fresh, load_rows-eq-load_fresh, load_rows_bound,
}

abbrev row : Row
row = record { ip = record { a = 1; b = 2; c = 3; d = 4 }; port = 8080; protocol = none }

abbrev url : Bytes
url = codes "http://example.com/list"

abbrev cache : Cache
cache = record { ttl = 60; refresh = false }

abbrev empty_memo : Memo
empty_memo = record { entries = []; hits = 0 }

-- Every file holds the one row.
abbrev world : Bytes → ℕ → Bytes
world path t = encode_rows (row ∷ [])

empty_memo-IsCoherent : IsCoherent world empty_memo
unfolding lookup
empty_memo-IsCoherent = record { decoded = λ path t rows e. cc; nonempty = λ path t e. cc }

cache_file_name_known : cache_file_name (codes "") ≡ codes "cbf29ce484222325"
unfolding cache_file_name
cache_file_name_known = refl

lookup-store_rows_example :
    lookup (cache_file_name url) (store_rows (codes "7") url (row ∷ []) (some (1 ∷ [])) true [])
    ≡ lookup (cache_file_name url) []
lookup-store_rows_example = lookup-store_rows (codes "7") url url (row ∷ []) (some (1 ∷ [])) true []

load-store_rows_example :
    (m' : Memo) × (load_rows cache url 100
        (some 70)
        (lookup (cache_file_name url) (store_rows (codes "7") url (row ∷ []) none true []))
        empty_memo
      ≡ returned (some (row ∷ []), m'))
load-store_rows_example =
    load-store_rows world cache (codes "7") url (row ∷ []) [] 100 70 empty_memo (omega arith)
      (λ e. cc) (omega arith) refl (omega arith) empty_memo-IsCoherent refl

load_rows-eq-load_fresh_example :
    (o : Option (List Row)) × (m' : Memo) × (load_rows cache url 100
        (some 70)
        (some (world (cache_file_name url) 70))
        empty_memo
      ≡ returned (o, m'))
    × (load_fresh world cache url 100 70 ≡ returned o)
    × IsCoherent world m'
load_rows-eq-load_fresh_example =
    load_rows-eq-load_fresh world cache url 100 70 empty_memo empty_memo-IsCoherent

-- The file is older than the ttl, so its entry goes.
abbrev one_entry : Memo
one_entry = record { entries = (cache_file_name url, (10, row ∷ [])) ∷ []; hits = 0 }

stale :
    load_rows cache url 100 (some 10) none one_entry
    ≡ returned (none, forget (cache_file_name url) one_entry)
unfolding load_rows
stale = refl

load_rows_bound_example : length (forget (cache_file_name url) one_entry).entries ≤ memo_max_entries
load_rows_bound_example =
    load_rows_bound cache url 100 (some 10) none one_entry (omega arith) none
      (forget (cache_file_name url) one_entry) stale

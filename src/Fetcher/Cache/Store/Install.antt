-- ===== src/Fetcher/Cache/Store/Install.antt =====
-- `store_rows` replaces a cache file as a whole, or leaves it alone.
use flx.Fetcher.Cache.Rows.RoundTrip.{IsRows, decode-encode_rows}
use flx.Fetcher.Cache.Store.Recall.{IsCoherent, load_fresh, load_rows-eq-load_fresh}
use flx.Base.Outcome.{returned}
use flx.Fetcher.Cache.Rows.{decode_rows}
use flx.Base.{
  beq_refl, ◌&&◌, ◌^◌, ◌-◌, ◌<◌, ◌/◌, ◌%◌, ℕ, zero, suc, ◌≤◌, ◌≡◌, ◌≢◌, refl, ap, Bool, true, false,
  List, [], ◌∷◌, ◌++◌, Option, none, some, length, length-append, if◌then◌else◌, arith, List_eq,
  ℕ_eq, list_eq, list_eq_iff, Bool-cases, inl, inr,
}
use flx.Base.Bytes.{Bytes, codes}
use flx.Base.Dict.{lookup, insert, lookup-insert, lookup-remove}
use flx.Fetcher.Cache.Rows.{Row, encode_rows}
use flx.Fetcher.Cache.Store.{
  load_rows, Memo, Cache, hex_digit, fnv, hex, cache_file_name, tmp_name, Files, install,
  store_rows,
}

length-hex : (width n : ℕ) → length (hex width n) ≡ width
unfolding hex
length-hex zero n = refl
length-hex (suc width) n =
    ground (
      arith,
      length-append (hex width (n / 16)) (hex_digit (n % 16) ∷ []),
      length-hex width (n / 16),
    )

-- Every cache file name has sixteen characters.
length-cache_file_name : (url : Bytes) → length (cache_file_name url) ≡ 16
unfolding cache_file_name
length-cache_file_name url = length-hex 16 (fnv 0xcbf2_9ce4_8422_2325 url)

-- A temporary file is longer, so it is no cache file.
tmp_name-ne-cache_file_name :
    (url pid other : Bytes)
    → list_eq (tmp_name (cache_file_name url) pid) (cache_file_name other) ≡ false
unfolding tmp_name
tmp_name-ne-cache_file_name url pid other =
    elim (Bool-cases (list_eq (tmp_name name pid) (cache_file_name other))) [
      | inl same ↦
          let e = ap length ((list_eq_iff (tmp_name name pid) (cache_file_name other)).0 same) in
          absurd (
            omega (
              arith,
              e,
              length-cache_file_name url,
              length-cache_file_name other,
              length-append name (codes ".tmp-" ++ pid),
              length-append (codes ".tmp-") pid,
            ))
      | inr ne ↦ ne
    ]
  where
    name : Bytes
    name = cache_file_name url

-- Whether the new body is in place: there are rows, the write succeeded, and so did the rename.
abbrev pub installs : List Row → Option Bytes → Bool → Bool
installs [] failed renamed = false
installs (r ∷ rows) (some left) renamed = false
installs (r ∷ rows) none renamed = renamed

lookup-install :
    (path tmp body other : Bytes) (files : Files)
    → list_eq tmp other ≡ false
    → (r : Row) (rows : List Row) (failed : Option Bytes) (renamed : Bool)
    → lookup other (install path tmp body failed renamed files) ≡ (
        if installs (r ∷ rows) failed renamed && list_eq path other
        then some body
        else lookup other files)
unfolding install
lookup-install path tmp body other files apart r rows (some left) renamed =
    rw (lookup-insert tmp other left files, apart)
lookup-install path tmp body other files apart r rows none true =
    rw
      (lookup-remove tmp other (insert path body files), apart, lookup-insert path other body files)
lookup-install path tmp body other files apart r rows none false = rw (
  lookup-remove tmp other (insert tmp body files),
  apart,
  lookup-insert tmp other body files,
  apart,
)

-- Atomicity. After `store_rows` for `url`, however its write and its rename end and whatever bytes a
-- failed write leaves behind, the cache file of any url is what it was, except that the file of `url`
-- (and of a url with the same file name) holds the whole new body if there are rows and both the write
-- and the rename succeeded.
pub lookup-store_rows :
    (pid url other : Bytes) (rows : List Row) (failed : Option Bytes) (renamed : Bool)
    (files : Files)
    → lookup (cache_file_name other) (store_rows pid url rows failed renamed files) ≡ (
        if installs rows failed renamed && list_eq (cache_file_name url) (cache_file_name other)
        then some (encode_rows rows)
        else lookup (cache_file_name other) files)
unfolding store_rows
lookup-store_rows pid url other [] failed renamed files = refl
lookup-store_rows pid url other (r ∷ rows) failed renamed files =
    lookup-install (cache_file_name url) (tmp_name (cache_file_name url) pid)
      (encode_rows (r ∷ rows)) (cache_file_name other) files
      (tmp_name-ne-cache_file_name url pid other) r rows failed renamed

load_fresh_young :
    (world : Bytes → ℕ → Bytes) (c : Cache) (url : Bytes) (now t : ℕ) (r : Row) (rows : List Row)
    → c.refresh ≡ false
    → now - t ≤ c.ttl
    → decode_rows (world (cache_file_name url) t) ≡ returned (some (r ∷ rows))
    → load_fresh world c url now t ≡ returned (some (r ∷ rows))
unfolding load_fresh
load_fresh_young world c url now t r rows cached young d = ground arith

-- `load_rows` after a `store_rows` that succeeded: with no refresh asked for and the file no older than
-- the ttl, it returns the rows that were stored, from any memo that is coherent with the files. The
-- rows fit their machine types, and there are between one and 2 ^ 32 - 1 of them.
pub load-store_rows :
    (world : Bytes → ℕ → Bytes) (c : Cache) (pid url : Bytes) (rows : List Row) (files : Files)
    (now t : ℕ) (m : Memo)
    → IsRows rows
    → rows ≢ []
    → length rows < 2 ^ 32
    → c.refresh ≡ false
    → now - t ≤ c.ttl
    → IsCoherent world m
    → world (cache_file_name url) t ≡ encode_rows rows
    → (m' : Memo) × (load_rows c url now
          (some t)
          (lookup (cache_file_name url) (store_rows pid url rows none true files))
          m
        ≡ returned (some rows, m'))
load-store_rows world c pid url [] files now t m h ne n cached young coherent written =
    absurd (ne refl)
load-store_rows world c pid url (r ∷ rows) files now t m h ne n cached young coherent written =
    let path = cache_file_name url in
    let (o, m', got, want, again) = load_rows-eq-load_fresh world c url now t m coherent in
    let stored : lookup path (store_rows pid url (r ∷ rows) none true files) ≡ some (world path t) =
      rw (lookup-store_rows pid url url (r ∷ rows) none true files, beq_refl path, written) refl in
    let fresh_rows =
      load_fresh_young world c url now t r rows cached (omega arith)
        (rw written (decode-encode_rows (r ∷ rows) h n)) in
    let rows_back : o ≡ some (r ∷ rows) = cc in (m', rw (stored, got, rows_back))

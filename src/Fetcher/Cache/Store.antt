-- ===== src/Fetcher/Cache/Store.antt =====
-- `Cache` of src/fetcher/cache.rs: the memo of decoded files, `load_rows` and `store_rows`.
-- The file system and the clock answer through arguments: what `metadata` and `read` return, whether
-- `write` and `rename` succeed, and the bytes that a failed write leaves.
pub mod Install
pub mod Recall
mod Tests
use Prim.Native.Nat.{bit_xor}
use flx.Base.{
  ℕ, zero, suc, ◌+◌, ◌-◌, ◌*◌, ◌/◌, ◌%◌, ◌^◌, ◌≡◌, Bool, true, false, List, [], ◌∷◌, ◌++◌, Option,
  none, some, Eq, List_eq, ℕ_eq, length, if◌then◌else◌, ltb, leb, nat_eq,
}
use flx.Base.Bytes.{Bytes, codes}
use flx.Base.Dict.{Dict, lookup, insert, remove}
use flx.Base.Outcome.{Outcome, returned, ◌>>=◌}
use flx.Fetcher.Cache.Rows.{Row, encode_rows, decode_rows}

-- `MEMO_MAX_ENTRIES`
abbrev pub memo_max_entries : ℕ
memo_max_entries = 256

-- The memo: for each file its modification time and its rows. `hits` is `MEMO_HITS`.
pub record Memo : Type 0 where
  pub entries : Dict Bytes (ℕ × List Row)
  pub hits : ℕ

abbrev matching : Memo → ℕ → Option (ℕ × List Row) → Option (List Row) × Memo
matching m modified none = (none, m)
matching m modified (some (cached_mtime, rows)) =
    if nat_eq cached_mtime modified then (some rows, record m { hits = m.hits + 1 }) else (none, m)

unfoldable pub recall : Bytes → ℕ → Memo → Option (List Row) × Memo
recall path modified m = matching m modified (lookup path m.entries)

unfoldable pub remember : Bytes → ℕ → List Row → Memo → Memo
remember path modified rows m =
    let entries = if leb memo_max_entries (length m.entries) then [] else m.entries in
    record m { entries = insert path (modified, rows) entries }

unfoldable pub forget : Bytes → Memo → Memo
forget path m = record m { entries = remove path m.entries }

pub record Cache : Type 0 where
  pub ttl : ℕ
  pub refresh : Bool

-- `cache_file_name`: 64-bit FNV-1a, in sixteen hexadecimal digits.
unfoldable pub fnv : ℕ → Bytes → ℕ
fnv hash [] = hash
fnv hash (byte ∷ rest) = fnv (bit_xor hash byte * 0x0000_0100_0000_01b3 % 2 ^ 64) rest

abbrev pub hex_digit : ℕ → ℕ
hex_digit n = if ltb n 10 then n + 48 else n + 87

unfoldable pub hex : ℕ → ℕ → Bytes
hex zero n = []
hex (suc width) n = hex width (n / 16) ++ hex_digit (n % 16) ∷ []

unfoldable pub cache_file_name : Bytes → Bytes
unfolding fnv hex
cache_file_name url = hex 16 (fnv 0xcbf2_9ce4_8422_2325 url)

-- The rows of a file that was read and decoded; `none` is an early `return None`.
abbrev keep : Bytes → ℕ → Memo → Option (List Row) → Option (List Row) × Memo
keep path modified m none = (none, m)
keep path modified m (some []) = (none, m)
keep path modified m (some (r ∷ rows)) = (some (r ∷ rows), remember path modified (r ∷ rows) m)

abbrev read_file :
    Bytes → ℕ → Option Bytes → Option (List Row) × Memo → Outcome (Option (List Row) × Memo)
read_file path modified body (some rows, m) = returned (some rows, m)
read_file path modified none (none, m) = returned (none, m)
read_file path modified (some body) (none, m) = do
  rows ← decode_rows body
  returned (keep path modified m rows)

-- `modified` is the time that `metadata` gives, and `body` what `read` gives after that.
-- A modification time after `now` is age zero.
unfoldable pub load_rows :
    Cache → Bytes → ℕ → Option ℕ → Option Bytes → Memo → Outcome (Option (List Row) × Memo)
load_rows c url now none body m = returned (none, m)
load_rows c url now (some modified) body m =
    if c.refresh
    then returned (none, m)
    else if ltb c.ttl (now - modified)
    then returned (none, forget (cache_file_name url) m)
    else read_file (cache_file_name url) modified body (recall (cache_file_name url) modified m)

-- The files of the cache directory, by name.
abbrev pub Files : Type 0
Files = Dict Bytes Bytes

-- `.{name}.tmp-{pid}`
unfoldable pub tmp_name : Bytes → Bytes → Bytes
tmp_name name pid = codes "." ++ (name ++ (codes ".tmp-" ++ pid))

-- `written` is what the `write` call did: `some left` if it failed with these bytes in the file.
unfoldable pub install : Bytes → Bytes → Bytes → Option Bytes → Bool → Files → Files
install path tmp body (some left) renamed files = insert tmp left files
install path tmp body none true files = remove tmp (insert path body files)
install path tmp body none false files = remove tmp (insert tmp body files)

unfoldable pub store_rows : Bytes → Bytes → List Row → Option Bytes → Bool → Files → Files
store_rows pid url [] failed renamed files = files
store_rows pid url (r ∷ rows) failed renamed files =
    install (cache_file_name url) (tmp_name (cache_file_name url) pid) (encode_rows (r ∷ rows))
      failed renamed files

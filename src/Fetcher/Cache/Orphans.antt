-- ===== src/Fetcher/Cache/Orphans.antt =====
-- `Cache::new` and `clean_orphaned_tmp` of src/fetcher/cache.rs. The directory is what `read_dir` lists,
-- with the answers of the calls on each entry.
mod Kept
use flx.Fetcher.Cache.Store.{Cache}
use flx.Validator.Work.{contains_text}
use flx.Base.Bytes.{codes, Bytes}
use flx.Base.{
  ◌-◌, none, ltb, ◌^◌, some, ◌&&◌, if◌then◌else◌, ◌*◌, not, filter, ℕ, leb, false, List, Bool,
  Option,
}

-- `ORPHANED_TMP_MAX_AGE`, an hour in nanoseconds.
abbrev pub orphaned_tmp_max_age : ℕ
orphaned_tmp_max_age = 60 * 60 * 10 ^ 9

pub record Metadata : Type 0 where
  pub is_file : Bool
  pub modified : Option ℕ

-- `asked` and `now` are the clock where the time of the file is read and where its age is.
pub record DirEntry : Type 0 where
  pub file_name : Bytes
  pub metadata : Option Metadata
  pub asked : ℕ
  pub now : ℕ
  pub removable : Bool

abbrev pub or_now : ℕ → Option ℕ → ℕ
or_now asked none = asked
or_now asked (some modified) = modified

-- `duration_since` fails for a time to come.
abbrev pub is_aged : DirEntry → Metadata → Bool
is_aged entry m =
    let modified = or_now entry.asked m.modified in
    leb modified entry.now && ltb orphaned_tmp_max_age (entry.now - modified)

abbrev pub is_old_file : DirEntry → Option Metadata → Bool
is_old_file entry none = false
is_old_file entry (some m) = m.is_file && is_aged entry m

unfoldable pub is_orphan : DirEntry → Bool
is_orphan entry = contains_text entry.file_name (codes ".tmp-") && is_old_file entry entry.metadata

-- What is left in the directory.
unfoldable pub clean_orphaned_tmp : List DirEntry → List DirEntry
clean_orphaned_tmp entries = filter (λ entry. not (is_orphan entry && entry.removable)) entries

abbrev pub new_at : ℕ → Bool → Cache
new_at ttl refresh = record { ttl = ttl; refresh = refresh }

-- `made` says whether the directory stands.
unfoldable pub new : Bool → ℕ → Bool → List DirEntry → Option (Cache × List DirEntry)
new made ttl refresh entries =
    if made then some (new_at ttl refresh, clean_orphaned_tmp entries) else none

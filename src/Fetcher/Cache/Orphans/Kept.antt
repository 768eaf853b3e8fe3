-- ===== src/Fetcher/Cache/Orphans/Kept.antt =====
-- `clean_orphaned_tmp` of src/fetcher/cache.rs, on the names that `store_rows` gives.
use mathlib.Core.Path.{subst}
use flx.Base.{sym, ap₂, ◌||◌}
use flx.Validator.Work.{contains_text, starts_with}
use flx.Fetcher.Cache.Store.{cache_file_name, tmp_name, hex, hex_digit, fnv}
use flx.Fetcher.Cache.Orphans.{DirEntry, is_orphan, is_old_file}
use flx.Base.Bytes.{codes, Bytes}
use flx.Base.{
  ◌%◌, refl, [], ◌/◌, arith, suc, true, ◌∷◌, false, nat_eq, ◌||◌, ◌++◌, ◌≡◌, any, Bool, ℕ,
}

abbrev is_dot : ℕ → Bool
is_dot c = nat_eq c 46

any-append : (xs ys : Bytes) → any is_dot (xs ++ ys) ≡ any is_dot xs || any is_dot ys
any-append [] ys = refl
any-append (x ∷ xs) ys = ground (arith, any-append xs ys)

digit_dotless : (n : ℕ) → is_dot (hex_digit n) ≡ false
digit_dotless n = ground arith

hex_dotless : (width n : ℕ) → any is_dot (hex width n) ≡ false
unfolding hex
hex_dotless ℕ.zero n = refl
hex_dotless (suc width) n = ground (
  arith,
  any-append (hex width (n / 16)) (hex_digit (n % 16) ∷ []),
  hex_dotless width (n / 16),
  digit_dotless (n % 16),
)

no_start :
    (c : ℕ) (text needle : Bytes) → is_dot c ≡ false → starts_with (c ∷ text) (46 ∷ needle) ≡ false
unfolding starts_with
no_start c text needle h = ground (arith, h)

dotless : (text : Bytes) → any is_dot text ≡ false → contains_text text (codes ".tmp-") ≡ false
unfolding contains_text
dotless [] h = refl
dotless (c ∷ text) h =
    let first : is_dot c ≡ false = ground (arith, h) in
    let later : any is_dot text ≡ false = ground (arith, h) in
    ap₂ (λ a b. a || b) (no_start c text (codes "tmp-") first) (dotless text later)

found : (past rest : Bytes) → contains_text (past ++ (codes ".tmp-" ++ rest)) (codes ".tmp-") ≡ true
unfolding contains_text starts_with
found [] rest = refl
found (c ∷ past) rest = ground (arith, found past rest)

-- A cache file is never an orphan.
is_orphan-cache_file_name :
    (url : Bytes) (entry : DirEntry)
    → entry.file_name ≡ cache_file_name url
    → is_orphan entry ≡ false
unfolding is_orphan cache_file_name
is_orphan-cache_file_name url entry h =
    let dots : contains_text entry.file_name (codes ".tmp-") ≡ false =
      subst (λ name. contains_text name (codes ".tmp-") ≡ false) (sym h)
        (dotless (cache_file_name url) (hex_dotless 16 (fnv 0xcbf2_9ce4_8422_2325 url))) in
    ground (arith, dots)

-- A temporary file of `store_rows` is one as soon as it is old.
is_orphan-tmp_name :
    (name pid : Bytes) (entry : DirEntry)
    → entry.file_name ≡ tmp_name name pid
    → is_orphan entry ≡ is_old_file entry entry.metadata
unfolding is_orphan tmp_name
is_orphan-tmp_name name pid entry h =
    let here : contains_text entry.file_name (codes ".tmp-") ≡ true =
      subst (λ text. contains_text text (codes ".tmp-") ≡ true) (sym h)
        (found (codes "." ++ name) pid) in
    ground (arith, here)

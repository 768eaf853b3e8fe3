-- ===== src/Fetcher/Dedup/Tests.antt =====
-- A hash set of endpoint keys for the table, and the theorems at a table that evicts.
use flx.Base.{
  not, ℕ, ◌+◌, ◌-◌, ◌≡◌, refl, Bool, true, false, ◌||◌, List, [], ◌∷◌, contains, if◌then◌else◌,
  arith,
}
use flx.Fetcher.Dedup.{
  endpoint_key_eq, EndpointKey, EndpointKey_eq, DedupTable, with_capacity, insert, insert_all,
}
use flx.Fetcher.Dedup.Hash.{HashSet}
use flx.Fetcher.Dedup.Refine.{push, IsValid, with_capacity-IsValid, insert_refines}
use flx.Fetcher.Dedup.Window.{insert_window}

abbrev Key : Type 0
Key = EndpointKey

-- The set as a list of the keys, with its size.
abbrev erase : List Key → Key → List Key
erase [] k = []
erase (x ∷ xs) k = if EndpointKey_eq.beq k x then erase xs k else x ∷ erase xs k

contains-erase :
    (xs : List Key) (k j : Key)
    → contains (erase xs k) j ≡ (if EndpointKey_eq.beq k j then false else contains xs j)
contains-erase [] k j = ground arith
contains-erase (x ∷ xs) k j = ground (
  arith,
  contains-erase xs k j,
  EndpointKey_eq.beq_iff k x,
  EndpointKey_eq.beq_iff x j,
  EndpointKey_eq.beq_iff k j,
)

abbrev add : List Key × ℕ → Key → Bool × (List Key × ℕ)
add (xs, n) k = if contains xs k then (false, (xs, n)) else (true, (k ∷ xs, n + 1))

contains-add :
    (s : List Key × ℕ) (k j : Key)
    → contains (add s k).1.0 j ≡ (EndpointKey_eq.beq k j || contains s.0 j)
contains-add (xs, n) k j = ground (arith, EndpointKey_eq.beq_iff k j)

abbrev discard : List Key × ℕ → Key → List Key × ℕ
discard s k = if contains s.0 k then (erase s.0 k, s.1 - 1) else s

add_fresh : (s : List Key × ℕ) (k : Key) → (add s k).0 ≡ not (contains s.0 k)
add_fresh s k = ground arith

count-add : (s : List Key × ℕ) (k : Key) → (add s k).1.1 ≡ (if contains s.0 k then s.1 else s.1 + 1)
count-add s k = ground arith

contains-discard :
    (s : List Key × ℕ) (k j : Key)
    → contains (discard s k).0 j ≡ (if endpoint_key_eq k j then false else contains s.0 j)
contains-discard s k j = ground (arith, contains-erase s.0 k j, EndpointKey_eq.beq_iff k j)

count-discard :
    (s : List Key × ℕ) (k : Key) → (discard s k).1 ≡ (if contains s.0 k then s.1 - 1 else s.1)
count-discard s k = ground arith

abbrev list_set : HashSet Key
list_set = record {
  Set = List Key × ℕ;
  empty = ([], 0);
  has = λ s k. contains s.0 k;
  len = λ s. s.1;
  insert = add;
  remove = discard;
  has-empty = λ k. refl;
  len-empty = refl;
  insert_fresh = add_fresh;
  has-insert = contains-add;
  len-insert = count-add;
  has-remove = contains-discard;
  len-remove = count-discard;
}

abbrev key : ℕ → Key
key n = (n, 8080, 0)

-- Two keys at capacity two.
abbrev pair_table : DedupTable list_set
pair_table = insert_all list_set (with_capacity list_set 2) (key 1 ∷ key 2 ∷ [])

evicts_oldest : (insert list_set pair_table (key 3)).0.order ≡ key 2 ∷ key 3 ∷ []
unfolding insert_all insert with_capacity
evicts_oldest = refl

known : (insert list_set pair_table (key 1)).1 ≡ false
unfolding insert_all insert with_capacity
known = refl

pair_table-IsValid : IsValid list_set pair_table
unfolding insert_all
pair_table-IsValid =
    let (o, b, c, v) =
      insert_refines list_set (with_capacity list_set 2) (key 1)
        (with_capacity-IsValid list_set 2) in
    let (o', b', c', w) =
      insert_refines list_set (insert list_set (with_capacity list_set 2) (key 1)).0 (key 2) v in
    w

insert_refines_example :
    let t = pair_table in
    ((insert list_set t (key 3)).0.order ≡ (push t.capacity t.order (key 3)).0)
    × ((insert list_set t (key 3)).1 ≡ (push t.capacity t.order (key 3)).1)
    × ((insert list_set t (key 3)).0.capacity ≡ t.capacity)
    × IsValid list_set (insert list_set t (key 3)).0
insert_refines_example = insert_refines list_set pair_table (key 3) pair_table-IsValid

insert_window_example :
    (insert list_set
      (insert_all list_set (insert list_set pair_table (key 3)).0 (key 4 ∷ []))
      (key 3)).1
    ≡ false
unfolding insert_all insert with_capacity
insert_window_example =
    insert_window list_set pair_table (key 3) (key 4 ∷ []) pair_table-IsValid refl (omega arith)

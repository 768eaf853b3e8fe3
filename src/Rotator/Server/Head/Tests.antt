-- ===== src/Rotator/Server/Head/Tests.antt =====
-- A request in three reads.
use flx.Base.{false, map, none, refl, [], ◌≤◌, some, ◌++◌, ◌≡◌, ◌∷◌, ℕ, List}
use flx.Negotiators.Head.{at_blank, find_head_end}
use flx.Base.Bytes.{codes, Bytes}
use flx.Rotator.Server.Head.Chunks.{read_head_lem, is_head, Finds, concat}
use flx.Rotator.Server.Head.{Read, read_head, request_head_limit}

abbrev request_chunks : List Bytes
request_chunks =
    codes "GET http://a/ HT" ∷ (codes "TP/1.1" ++ 13 ∷ 10 ∷ 13 ∷ []) ∷ (10 ∷ codes "tail") ∷ []

read_head_lem_example :
    ((end : ℕ)
      → find_head_end (concat request_chunks) ≡ some end
      → end ≤ request_head_limit
      → Finds (concat request_chunks) end [] request_chunks)
    × (find_head_end (concat request_chunks) ≡ none
        → is_head (read_head [] (map Read.chunk request_chunks)) ≡ false)
read_head_lem_example = read_head_lem request_chunks refl

ends_at : find_head_end (concat request_chunks) ≡ some 26
unfolding find_head_end at_blank
ends_at = refl

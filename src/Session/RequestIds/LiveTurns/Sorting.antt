-- ===== src/Session/RequestIds/LiveTurns/Sorting.antt =====
-- `slices.Sort` and `slices.Compact` on texts, as `liveTurns` of internal/session/request_ids.go
-- uses them.
use Prim.Native.String.{compare}
use ferngeist_acp_gateway.Prelude.{List, [], ◌∷◌, String, by_text, is_less, ◌==◌, if◌then◌else◌}

unfoldable pub insert_text : String → List String → List String
insert_text x [] = x ∷ []
insert_text x (y ∷ l) =
    let rest = insert_text x l in if is_less (compare y x) then y ∷ rest else x ∷ y ∷ l

unfoldable pub sort_texts : List String → List String
unfolding insert_text
sort_texts [] = []
sort_texts (x ∷ l) = insert_text x (sort_texts l)

-- The first of the adjacent equal items stays.
unfoldable pub compact_after : String → List String → List String
compact_after x [] = []
compact_after x (y ∷ l) = let rest = compact_after y l in if y == x then rest else y ∷ rest

unfoldable pub compact : List String → List String
unfolding compact_after
compact [] = []
compact (x ∷ l) = x ∷ compact_after x l

-- ===== src/Session/Prompts.antt =====
-- internal/session/prompt_ids.go: the prompts that already reached the agent. The frame's ID and the
-- text of the answer are JSON: a frame's ID is a text, `none` where it is missing.
pub mod Recent
pub mod Bounds
pub mod Repeats
use ferngeist_acp_gateway.Prelude.{
  ℕ, Bool, true, false, not, ◌||◌, ◌&&◌, Option, none, some, List, [], ◌∷◌, ◌++◌, String, by_text,
  length, leb, ◌==◌, if◌then◌else◌,
}
use ferngeist_acp_gateway.Map
use ferngeist_acp_gateway.Map.{Map}

abbrev pub max_delivered_prompts : ℕ
max_delivered_prompts = 32

-- For each ACP session its client IDs, oldest first.
pub record DeliveredPrompts : Type 0 where
  pub ids : Map String (List String)

unfoldable pub new_delivered_prompts : DeliveredPrompts
unfolding Map.empty
new_delivered_prompts = record { ids = Map.empty }

-- `d.ids[sessionID]`, with Go's zero value where there is none.
abbrev pub ids_of : Option (List String) → List String
ids_of none = []
ids_of (some ids) = ids

-- `slices.Contains`
unfoldable pub contains_id : String → List String → Bool
contains_id id [] = false
contains_id id (x ∷ xs) = (x == id) || contains_id id xs

-- `ids[1:]`, read only where there is a first item.
abbrev pub rest_ids : List String → List String
rest_ids [] = []
rest_ids (x ∷ xs) = xs

-- `slices.DeleteFunc`
unfoldable pub delete_all : String → List String → List String
delete_all id [] = []
delete_all id (x ∷ xs) = let rest = delete_all id xs in if x == id then rest else x ∷ rest

unfoldable pub drop_first : List String → List String
drop_first ids = if leb max_delivered_prompts (length ids) then rest_ids ids else ids

unfoldable pub claim : String → String → DeliveredPrompts → DeliveredPrompts × Bool
claim session_id client_id d =
    let ids = ids_of (Map.lookup session_id d.ids) in
    if client_id == ""
    then (d, true)
    else (if contains_id client_id ids then (d, false) else (
      record { ids = Map.insert session_id (drop_first ids ++ client_id ∷ []) d.ids },
      true,
    ))

-- The session's list is an argument.
unfoldable pub forget : String → String → Option (List String) → DeliveredPrompts → DeliveredPrompts
forget session_id client_id none d = d
forget session_id client_id (some ids) d = record {
  ids = Map.insert session_id (delete_all client_id ids) d.ids;
}

unfoldable pub release : String → String → DeliveredPrompts → DeliveredPrompts
unfolding forget
release session_id client_id d = forget session_id client_id (Map.lookup session_id d.ids) d

-- What `clientFrame` holds of a frame, as far as it is read here.
pub record ClientFrame : Type 0 where
  pub method : String
  pub id : Option String
  pub session_id : String
  pub client_id : String

-- The error that `promptDeliveredFrame` writes, for the frame's ID.
pub record PromptDelivered : Type 0 where
  pub id : String
  pub client_id : String

-- The answer is `some` where the frame is dropped.
unfoldable pub drop_duplicate_prompt :
    ClientFrame → DeliveredPrompts → DeliveredPrompts × Option PromptDelivered
drop_duplicate_prompt f d = elim f.id [
  | none ↦ (d, none)
  | some id ↦
      let claimed = claim f.session_id f.client_id d in
      if f.method == "session/prompt"
      then (if claimed.1
          then (claimed.0, none)
          else (claimed.0, some (record { id = id; client_id = f.client_id })))
      else (d, none)
]

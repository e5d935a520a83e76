-- ===== src/Store/ModelMap.antt =====
-- store/model_map.go: the mapping between Copilot's model IDs and those shown to clients.
pub mod Laws
use copilot_pool_gateway.Base.{
  String, Bool, true, false, not, List, [], ◌∷◌, ◌++◌, Option, none, some, ◌==◌, if◌then◌else◌,
  first, exists, update_first, keep,
}
use copilot_pool_gateway.Base.Keyed.{has_key}
use copilot_pool_gateway.Store.Disk.{Disk, File, object, Action, write}

pub record ModelMapping : Type 0 where
  pub copilot_id : String
  pub display_id : String
  pub display_name : String

abbrev pub copilot_key : ModelMapping → String
copilot_key m = m.copilot_id

abbrev pub display_key : ModelMapping → String
display_key m = m.display_id

abbrev mappings_of : File ModelMapping → List ModelMapping
mappings_of (object mappings) = mappings
mappings_of _ = []

-- readModelMap: what cannot be read or does not parse is the empty map, never an error.
unfoldable pub read_model_map : Disk ModelMapping → List ModelMapping
read_model_map d = mappings_of d.file

-- GetModelMappings
unfoldable pub get_model_mappings : Disk ModelMapping → List ModelMapping
unfolding read_model_map
get_model_mappings d = read_model_map d

-- SetModelMappings
unfoldable pub set_model_mappings : List ModelMapping → Action ModelMapping (Unit {0})
set_model_mappings mappings = write mappings

-- The loop of AddModelMapping: replace in place, or append.
unfoldable pub with_mapping : ModelMapping → List ModelMapping → List ModelMapping
with_mapping mapping mappings =
    if exists (has_key copilot_key mapping.copilot_id) mappings
    then update_first (has_key copilot_key mapping.copilot_id) (λ _. mapping) mappings
    else mappings ++ mapping ∷ []

-- AddModelMapping
unfoldable pub add_model_mapping : ModelMapping → Action ModelMapping (Unit {0})
unfolding with_mapping read_model_map
add_model_mapping mapping d = write (with_mapping mapping (read_model_map d)) d

-- DeleteModelMapping
unfoldable pub delete_model_mapping : String → Action ModelMapping (Unit {0})
unfolding read_model_map
delete_model_mapping copilot_id d =
    write (keep (λ m. not (has_key copilot_key copilot_id m)) (read_model_map d)) d

abbrev display_or : String → Option ModelMapping → String
display_or id none = id
display_or id (some m) = m.display_id

abbrev copilot_or : String → Option ModelMapping → String
copilot_or id none = id
copilot_or id (some m) = m.copilot_id

-- ToDisplayID
unfoldable pub to_display_id : Disk ModelMapping → String → String
unfolding read_model_map
to_display_id d copilot_id =
    display_or copilot_id (first (has_key copilot_key copilot_id) (read_model_map d))

-- ToCopilotID
unfoldable pub to_copilot_id : Disk ModelMapping → String → String
unfolding read_model_map
to_copilot_id d display_id =
    copilot_or display_id (first (has_key display_key display_id) (read_model_map d))

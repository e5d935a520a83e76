-- ===== src/Store/ModelMap/Laws.antt =====
-- The two translations, and what adding and deleting a mapping does to them.
use copilot_pool_gateway.Base.{String, ◌≡◌, some, arith, ◌==◌, if◌then◌else◌, first}
use copilot_pool_gateway.Base.Keyed.{
  has_key, UniqueKeys, first_found, first-keep_other, first-replace_or_append, exists_of_first,
}
use copilot_pool_gateway.Store.Disk.{Disk, write, lands}
use copilot_pool_gateway.Store.ModelMap.{
  ModelMapping, copilot_key, display_key, read_model_map, with_mapping, add_model_mapping,
  delete_model_mapping, to_display_id, to_copilot_id,
}

-- On a disk that takes the write, adding a mapping translates its Copilot ID to its display ID,
-- whether the ID was mapped before or not, and leaves the translation of every other ID.
pub to_display_id-add :
    (d : Disk ModelMapping) (m : ModelMapping) (j : String)
    → d.fate ≡ lands
    → to_display_id (add_model_mapping m d).1 j
      ≡ (if m.copilot_id == j then m.display_id else to_display_id d j)
unfolding to_display_id add_model_mapping with_mapping read_model_map write
to_display_id-add d m j written =
    ground (arith, first-replace_or_append copilot_key m j (read_model_map d))

-- On a disk that takes the write, deleting a Copilot ID makes it stand for itself, and leaves the
-- translation of every other ID.
pub to_display_id-delete :
    (d : Disk ModelMapping) (k j : String)
    → d.fate ≡ lands
    → to_display_id (delete_model_mapping k d).1 j ≡ (if k == j then j else to_display_id d j)
unfolding to_display_id delete_model_mapping read_model_map write
to_display_id-delete d k j written =
    ground (arith, first-keep_other copilot_key k j (read_model_map d))

-- Where no two mappings show the same display ID, translating a mapped Copilot ID to its display ID
-- and back gives the Copilot ID.
pub to_copilot_id-to_display_id :
    (d : Disk ModelMapping) (c : String) (m : ModelMapping)
    → UniqueKeys display_key (read_model_map d)
    → first (has_key copilot_key c) (read_model_map d) ≡ some m
    → to_copilot_id d (to_display_id d c) ≡ c
unfolding to_copilot_id to_display_id
to_copilot_id-to_display_id d c m u h = ground (
  arith,
  exists_of_first copilot_key c (read_model_map d) m h,
  first_found display_key (has_key copilot_key c) (read_model_map d) m u h,
)

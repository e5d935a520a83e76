-- ===== src/Store/Account/Update/Guards.antt =====
-- What the console's updates can and cannot change.
use copilot_pool_gateway.Base.{
  String, ◌≡◌, refl, Bool, false, List, [], ◌∷◌, some, arith, ◌==◌, eq_iff, if◌then◌else◌, first,
}
use copilot_pool_gateway.Base.StringMap.{StringMap}
use copilot_pool_gateway.Base.Keyed.{first-update_first}
use copilot_pool_gateway.Store.Disk.{Disk, ok, contents, read, write, lands}
use copilot_pool_gateway.Store.Account.{Account, account_id, has_id}
use copilot_pool_gateway.Store.Account.Lookup.{get_account}
use copilot_pool_gateway.Store.Account.Update.{Value, flag, apply_updates, update_account}

-- The fields that no map of updates reaches.
pub record Untouched (a b : Account) : Type 0 where
  pub same_id : b.id ≡ a.id
  pub same_key : b.api_key ≡ a.api_key
  pub same_time : b.created_at ≡ a.created_at
  pub same_managed : b.worker_managed ≡ a.worker_managed
  pub same_port : b.worker_port ≡ a.worker_port
  pub same_pid : b.worker_pid ≡ a.worker_pid
  pub same_home : b.worker_home ≡ a.worker_home

apply_updates-Untouched :
    (updates : StringMap Value) (a : Account) → Untouched a (apply_updates updates a)
unfolding apply_updates
apply_updates-Untouched updates a = record {
  same_id = refl;
  same_key = refl;
  same_time = refl;
  same_managed = refl;
  same_port = refl;
  same_pid = refl;
  same_home = refl;
}

-- On a readable file and a disk that takes the write, updating an ID that is there returns the
-- updated account, whose ID, API key, creation time and worker identity are as before; afterwards
-- the ID finds that account, and every other ID finds what it found before.
pub update_account-updates :
    (id : String) (updates : StringMap Value) (d : Disk Account) (xs : List Account) (a : Account)
    → contents d.file ≡ some xs
    → d.fate ≡ lands
    → first (has_id id) xs ≡ some a
    → (j : String)
    → ((update_account id updates d).0 ≡ ok (some (apply_updates updates a)))
      × Untouched a (apply_updates updates a)
      × ((get_account j (update_account id updates d).1).0
          ≡ (if id == j then ok (some (apply_updates updates a)) else (get_account j d).0))
unfolding update_account get_account read write contents
update_account-updates id updates d xs a readable written found j = (
  ground arith,
  apply_updates-Untouched updates a,
  ground (
    arith,
    first-update_first account_id id j (apply_updates updates) xs
        (λ b. (apply_updates-Untouched updates b).same_id),
    eq_iff id j,
  ),
)

abbrev pub disabling : StringMap Value
disabling = ("enabled", flag false) ∷ []

abbrev is_enabled : Account → Bool
is_enabled a = a.enabled

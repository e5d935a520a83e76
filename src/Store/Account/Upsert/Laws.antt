-- ===== src/Store/Account/Upsert/Laws.antt =====
-- What a login leaves in the accounts file.
use copilot_pool_gateway.Base.{
  String, ◌≡◌, refl, true, false, List, [], none, some, arith, ◌==◌, eq_iff, exists, first,
  update_first, if◌then◌else◌,
}
use copilot_pool_gateway.Base.Keyed.{
  UniqueKeys, first-update_first_found, first-update_first_other, first-append,
  first-none_of_exists,
}
use copilot_pool_gateway.Store.Disk.{Disk, ok, contents, read, write, lands}
use copilot_pool_gateway.Store.Account.{Account, account_id, has_id}
use copilot_pool_gateway.Store.Account.Lookup.{get_account}
use copilot_pool_gateway.Store.Account.Upsert.{
  Login, Fresh, upsert_matches, refresh_account, new_account, upsert_account,
}

-- What a refresh sets, and what it leaves.
pub record Refreshed (l : Login) (a b : Account) : Type 0 where
  pub token : b.github_token ≡ l.github_token
  pub blocked : b.blocked_models ≡ []
  pub supported : b.supported_models ≡ []
  pub unsupported : b.unsupported_models ≡ []
  pub probe : b.probe_status ≡ ""
  pub same_id : b.id ≡ a.id
  pub same_key : b.api_key ≡ a.api_key
  pub same_switch : b.enabled ≡ a.enabled
  pub same_priority : b.priority ≡ a.priority
  pub same_time : b.created_at ≡ a.created_at
  pub same_worker :
      (b.worker_url ≡ a.worker_url)
      × (b.worker_port ≡ a.worker_port)
      × (b.worker_pid ≡ a.worker_pid)
      × (b.worker_managed ≡ a.worker_managed)

module _ (l : Login) (f : Fresh) (d : Disk Account) (xs : List Account)
    (readable : contents d.file ≡ some xs) (written : d.fate ≡ lands)
    (unique : UniqueKeys account_id xs) where
  -- On a readable file with distinct IDs and a disk that takes the write, a login that matches no
  -- account, under an ID that is not in use, returns a new account and says so; afterwards that ID
  -- finds the new account, and every other ID finds what it found before.
  pub upsert_account-creates :
      first (upsert_matches l) xs ≡ none
      → exists (has_id f.id) xs ≡ false
      → (j : String)
      → ((upsert_account l f d).0 ≡ ok (new_account l f, true))
        × ((get_account j (upsert_account l f d).1).0
            ≡ (if f.id == j then ok (some (new_account l f)) else (get_account j d).0))
  unfolding upsert_account get_account read write contents new_account
  upsert_account-creates miss fresh j = (
    ground arith,
    ground (
      arith,
      first-append account_id j xs (new_account l f),
      first-none_of_exists account_id f.id xs,
      eq_iff f.id j,
    ),
  )

  refresh_same : (a : Account) → (refresh_account l a).id ≡ a.id
  unfolding refresh_account
  refresh_same a = refl

  refresh_other :
      (a : Account) (j : String)
      → first (upsert_matches l) xs ≡ some a
      → (a.id == j) ≡ false
      → first (has_id j) (update_first (upsert_matches l) (refresh_account l) xs)
        ≡ first (has_id j) xs
  refresh_other a j hit ne =
      first-update_first_other account_id (upsert_matches l) (refresh_account l) xs j refresh_same
        (λ b h. ground arith)

  -- On a readable file with distinct IDs and a disk that takes the write, a login that matches an
  -- account returns that account refreshed and says that it is not new; afterwards its ID finds the
  -- refreshed account, and every other ID finds what it found before. The refreshed account has the
  -- login's token, no model lists and no probe result, and the ID, API key, switch, priority,
  -- creation time and worker that it had.
  pub upsert_account-refreshes :
      (a : Account)
      → first (upsert_matches l) xs ≡ some a
      → (j : String)
      → ((upsert_account l f d).0 ≡ ok (refresh_account l a, false))
        × ((get_account j (upsert_account l f d).1).0
            ≡ (if a.id == j then ok (some (refresh_account l a)) else (get_account j d).0))
        × Refreshed l a (refresh_account l a)
  unfolding upsert_account get_account read write contents
  upsert_account-refreshes a hit j = (
    ground arith,
    ground (
      arith,
      first-update_first_found account_id (upsert_matches l) (refresh_account l) xs a refresh_same
          unique hit,
      refresh_other a j hit,
      eq_iff a.id j,
    ),
    unfold refresh_account in
        record {
          token = refl;
          blocked = refl;
          supported = refl;
          unsupported = refl;
          probe = refl;
          same_id = refl;
          same_key = refl;
          same_switch = refl;
          same_priority = refl;
          same_time = refl;
          same_worker = (refl, refl, refl, refl);
        },
  )

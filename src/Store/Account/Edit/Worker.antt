-- ===== src/Store/Account/Edit/Worker.antt =====
-- Setting and clearing the worker fields, seen through GetAccount.
use copilot_pool_gateway.Base.{
  ℕ, String, ◌≡◌, refl, List, none, some, arith, ◌==◌, eq_iff, if◌then◌else◌, first, update_first,
}
use copilot_pool_gateway.Base.Keyed.{first-update_first, first-keep_other}
use copilot_pool_gateway.Store.Disk.{Disk, ok, contents, read, write, lands}
use copilot_pool_gateway.Store.Account.{Account, account_id, has_id}
use copilot_pool_gateway.Store.Account.Lookup.{get_account}
use copilot_pool_gateway.Store.Account.Edit.{
  delete_account, with_worker, without_worker, update_account_worker, clear_account_worker,
}

module _ (d : Disk Account) (xs : List Account) (readable : contents d.file ≡ some xs)
    (written : d.fate ≡ lands) where
  -- On a readable file and a disk that takes writes, recording a worker for an ID that is there and
  -- clearing it again leaves that account as clearing alone would, and every other ID finds what it
  -- found before; so no trace of the worker stays.
  pub clear_account_worker-update :
      (id worker_url home : String) (port pid : ℕ) (a : Account)
      → first (has_id id) xs ≡ some a
      → (j : String)
      → (get_account j
          (clear_account_worker id (update_account_worker id worker_url home port pid d).1).1).0
        ≡ (if id == j then ok (some (without_worker a)) else (get_account j d).0)
  unfolding update_account_worker clear_account_worker get_account read write contents
  clear_account_worker-update id worker_url home port pid a found j =
      let ys : List Account = update_first (has_id id) (with_worker worker_url home port pid) xs in
      ground (
        arith,
        first-update_first account_id id id (with_worker worker_url home port pid) xs (λ b. refl),
        first-update_first account_id id j (with_worker worker_url home port pid) xs (λ b. refl),
        first-update_first account_id id j without_worker ys (λ b. refl),
        eq_iff id j,
        eq_iff id id,
      )

  -- On a readable file and a disk that takes the write, deleting an ID makes it unknown and leaves
  -- every other ID as it was.
  pub delete_account-forgets :
      (id j : String)
      → (get_account j (delete_account id d).1).0
        ≡ (if id == j then ok none else (get_account j d).0)
  unfolding delete_account get_account read write contents
  delete_account-forgets id j = ground (arith, first-keep_other account_id id j xs, eq_iff id j)

-- ===== src/Store/Account/Unique.antt =====
-- The accounts file under each operation of store/account.go: IDs stay distinct.
use copilot_pool_gateway.Base.{
  ℕ, String, ◌≡◌, refl, Bool, false, List, Option, none, some, ◌==◌, exists, update_first,
  Bool-cases, Option-cases, inl, inr,
}
use copilot_pool_gateway.Base.StringMap.{StringMap}
use copilot_pool_gateway.Base.Keyed.{
  UniqueKeys, update_first-UniqueKeys, append-UniqueKeys, keep-UniqueKeys,
}
use copilot_pool_gateway.Store.Disk.{
  Disk, File, Fate, lands, fails, contents, read, write, pure, Action, Result-cases, ◌>>=◌, ◌>>◌,
}
use copilot_pool_gateway.Store.Account.{Account, account_id, has_id}
use copilot_pool_gateway.Store.Account.Models.{
  append_blocked, block_model_for_account, block_at, has_blocked_model, normalize_model_key,
}
use copilot_pool_gateway.Store.Account.Upsert.{
  Login, Fresh, upsert_matches, refresh_account, new_account, upsert_account, upsert_at,
}
use copilot_pool_gateway.Store.Account.Update.{Value, apply_updates, update_account, update_at}
use copilot_pool_gateway.Store.Account.Edit.{
  delete_account, regenerate_at, edit_at, regenerate_api_key, update_account_worker,
  clear_account_worker,
}

-- The operations that write the file, with their arguments.
pub data Call : Type 0 where
  upserts : Login → Fresh → Call
  updates : String → StringMap Value → Call
  deletes : String → Call
  regenerates : String → String → Call
  sets_worker : String → String → String → ℕ → ℕ → Call
  clears_worker : String → Call
  blocks : String → String → Call

-- The disk that a call leaves, whatever it returns.
pub step : Call → Disk Account → Disk Account
step (upserts l f) d = (upsert_account l f d).1
step (updates id u) d = (update_account id u d).1
step (deletes id) d = (delete_account id d).1
step (regenerates id uuid) d = (regenerate_api_key id uuid d).1
step (sets_worker id url home port pid) d = (update_account_worker id url home port pid d).1
step (clears_worker id) d = (clear_account_worker id d).1
step (blocks id model) d = (block_model_for_account id model d).1

abbrev pub UniqueIn : Option (List Account) → Type 0
UniqueIn none = Unit
UniqueIn (some xs) = UniqueKeys account_id xs

-- What a failing write leaves behind has distinct IDs too, for instance because it is the old file
-- or one cut short, which does not parse.
abbrev pub UniqueFate : Fate Account → Type 0
UniqueFate lands = Unit
UniqueFate (fails left) = UniqueIn (contents left)

pub record IsSound (d : Disk Account) : Type 0 where
  pub file : UniqueIn (contents d.file)
  pub fate : UniqueFate d.fate

abbrev UnusedIn : String → Option (List Account) → Type 0
UnusedIn id none = Unit
UnusedIn id (some xs) = exists (has_id id) xs ≡ false

-- The ID that `uuid.New()` gives to a new account is not in use.
abbrev pub IsFresh : Call → Disk Account → Type 0
IsFresh (upserts l f) d = UnusedIn f.id (contents d.file)
IsFresh _ d = Unit

write_fields-IsSound :
    (file : File Account) (fate : Fate Account) (xs : List Account)
    → UniqueFate fate
    → UniqueKeys account_id xs
    → IsSound (write xs (record { file = file; fate = fate })).1
unfolding write contents
write_fields-IsSound file lands xs s u = record { file = u; fate = s }
write_fields-IsSound file (fails left) xs s u = record { file = s; fate = s }

write-IsSound :
    (d : Disk Account) (xs : List Account)
    → IsSound d
    → UniqueKeys account_id xs
    → IsSound (write xs d).1
write-IsSound d xs s u = write_fields-IsSound d.file d.fate xs s.fate u

-- Rewriting one account without its ID keeps the disk sound.
rewrite-IsSound :
    (p : Account → Bool) (f : Account → Account) (d : Disk Account) (xs : List Account)
    → ((a : Account) → (f a).id ≡ a.id)
    → IsSound d
    → UniqueKeys account_id xs
    → IsSound (write (update_first p f xs) d).1
rewrite-IsSound p f d xs same s u =
    write-IsSound d _ s (update_first-UniqueKeys account_id p f xs same u)

-- One rule for each way that the operations are built.
read_then-IsSound :
    {R : Type 0} (k : List Account → Action Account R) (d : Disk Account)
    → IsSound d
    → ((xs : List Account) → contents d.file ≡ some xs → IsSound (k xs d).1)
    → IsSound ((read >>= k) d).1
unfolding read
read_then-IsSound k d s h = elim (Option-cases (contents d.file)) [
  | inl e ↦ rw (e, read) s
  | inr (xs, e) ↦ rw (e, read) (h xs e)
]

write_then-IsSound :
    {R : Type 0} (r : R) (d : Disk Account) (xs : List Account)
    → IsSound d
    → UniqueKeys account_id xs
    → IsSound ((write xs >> pure r) d).1
write_then-IsSound r d xs s u = elim (Result-cases (write xs d).0) [
  | inl (_, e) ↦ rw e (write-IsSound d xs s u)
  | inr (_, e) ↦ rw e (write-IsSound d xs s u)
]

unique_of :
    (d : Disk Account) (xs : List Account)
    → IsSound d
    → contents d.file ≡ some xs
    → UniqueKeys account_id xs
unique_of d xs s e = rw e at s.file

refresh_same : (l : Login) (a : Account) → (refresh_account l a).id ≡ a.id
unfolding refresh_account
refresh_same l a = refl

updates_same : (u : StringMap Value) (a : Account) → (apply_updates u a).id ≡ a.id
unfolding apply_updates
updates_same u a = refl

module _ (d : Disk Account) (s : IsSound d) (xs : List Account) (u : UniqueKeys account_id xs) where
  upsert_at-IsSound :
      (l : Login) (f : Fresh) (o : Option Account)
      → exists (has_id f.id) xs ≡ false
      → IsSound (upsert_at l f xs o d).1
  unfolding upsert_at
  upsert_at-IsSound l f none fresh =
      write_then-IsSound _ d _ s
        (append-UniqueKeys account_id xs (new_account l f) u (unfold new_account in fresh))
  upsert_at-IsSound l f (some a) fresh =
      write_then-IsSound _ d _ s
        (update_first-UniqueKeys account_id (upsert_matches l) _ xs (refresh_same l) u)

  update_at-IsSound :
      (id : String) (m : StringMap Value) (o : Option Account) → IsSound (update_at id m xs o d).1
  unfolding update_at
  update_at-IsSound id m none = s
  update_at-IsSound id m (some a) =
      write_then-IsSound _ d _ s
        (update_first-UniqueKeys account_id (has_id id) _ xs (updates_same m) u)

  regenerate_at-IsSound :
      (id key : String) (o : Option Account) → IsSound (regenerate_at id key xs o d).1
  unfolding regenerate_at
  regenerate_at-IsSound id key none = s
  regenerate_at-IsSound id key (some a) =
      write_then-IsSound _ d _ s (update_first-UniqueKeys account_id (has_id id) _ xs (λ b. refl) u)

  edit_at-IsSound :
      (id : String) (f : Account → Account) (o : Option Account)
      → ((a : Account) → (f a).id ≡ a.id)
      → IsSound (edit_at id f xs o d).1
  unfolding edit_at
  edit_at-IsSound id f none same = s
  edit_at-IsSound id f (some a) same = rewrite-IsSound (has_id id) f d xs same s u

  block_at-IsSound : (id n : String) (o : Option Account) → IsSound (block_at id n xs o d).1
  unfolding block_at
  block_at-IsSound id n none = s
  block_at-IsSound id n (some a) = elim (Bool-cases (has_blocked_model a n)) [
    | inl e ↦ rw e s
    | inr e ↦ rw e (rewrite-IsSound (has_id id) (append_blocked n) d xs (λ b. refl) s u)
  ]

block_model-IsSound :
    (id model : String) (d : Disk Account)
    → IsSound d
    → IsSound (block_model_for_account id model d).1
unfolding block_model_for_account
block_model-IsSound id model d s = elim (Bool-cases (normalize_model_key model == "")) [
  | inl e ↦ rw (e, block_model_for_account) s
  | inr e ↦
      rw (e, block_model_for_account)
        (read_then-IsSound _ d s λ xs r. block_at-IsSound d s xs (unique_of d xs s r) id _ _)
]

-- Every operation, on every branch and also where reading or writing fails, keeps the IDs distinct,
-- provided that a new account's ID is not in use and that a failing write leaves a sound file.
pub step-IsSound : (c : Call) (d : Disk Account) → IsFresh c d → IsSound d → IsSound (step c d)
unfolding step upsert_account update_account delete_account regenerate_api_key update_account_worker
    clear_account_worker
step-IsSound (upserts l f) d fresh s =
    read_then-IsSound _ d s
      λ xs e. upsert_at-IsSound d s xs (unique_of d xs s e) l f _ (rw e at fresh)
step-IsSound (updates id m) d fresh s =
    read_then-IsSound _ d s λ xs e. update_at-IsSound d s xs (unique_of d xs s e) id m _
step-IsSound (deletes id) d fresh s =
    read_then-IsSound _ d s
      λ xs e. write-IsSound d _ s (keep-UniqueKeys account_id _ xs (unique_of d xs s e))
step-IsSound (regenerates id key) d fresh s =
    read_then-IsSound _ d s λ xs e. regenerate_at-IsSound d s xs (unique_of d xs s e) id _ _
step-IsSound (sets_worker id url home port pid) d fresh s =
    read_then-IsSound _ d s λ xs e. edit_at-IsSound d s xs (unique_of d xs s e) id _ _ (λ a. refl)
step-IsSound (clears_worker id) d fresh s =
    read_then-IsSound _ d s λ xs e. edit_at-IsSound d s xs (unique_of d xs s e) id _ _ (λ a. refl)
step-IsSound (blocks id model) d fresh s = block_model-IsSound id model d s

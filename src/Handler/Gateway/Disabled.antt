-- ===== src/Handler/Gateway/Disabled.antt =====
-- An account that a fatal answer of the upstream disabled.
use copilot_pool_gateway.Base.{
  String, ◌≡◌, refl, ap, subst, ◌∙◌, false, List, [], ◌∷◌, Option, none, some, ◌==◌, eq_refl,
  Bool-cases, inl, inr, first, update_first, trim,
}
use copilot_pool_gateway.Base.StringMap.{get, put, get-put}
use copilot_pool_gateway.Base.Keyed.{exists_of_first, first-update_first}
use copilot_pool_gateway.Store.Disk.{Disk, Result, contents, lands, read, write, object}
use copilot_pool_gateway.Store.Account.{Account, account_id, has_id}
use copilot_pool_gateway.Store.Account.Update.{
  update_account, apply_updates, flag, update_at, Value,
}
use copilot_pool_gateway.Instance.Registry.{
  Registry, set_account_error, get_instance_status, is_running_status,
}
use copilot_pool_gateway.Instance.Registry.{ProxyInstance, failed_instance, status_of}
use copilot_pool_gateway.Handler.Gateway.{
  Gateway, Env, accounts_of, enabled_among, has_running_instance, disable_account, disabled,
  with_error, evict_account_continuation_caches,
}

abbrev off : List (String × Value)
off = ("enabled", flag false) ∷ []

evict-accounts :
    (env : Env) (id : String) (g : Gateway)
    → (evict_account_continuation_caches env id g).accounts ≡ g.accounts
unfolding evict_account_continuation_caches
evict-accounts env id g = elim (Bool-cases (trim id == "")) [
  | inl h ↦ rw h refl
  | inr h ↦ rw h refl
]

evict-instances :
    (env : Env) (id : String) (g : Gateway)
    → (evict_account_continuation_caches env id g).instances ≡ g.instances
unfolding evict_account_continuation_caches
evict-instances env id g = elim (Bool-cases (trim id == "")) [
  | inl h ↦ rw h refl
  | inr h ↦ rw h refl
]

set_account_error-not_running :
    (b : Account) (reason : String) (r : Registry)
    → is_running_status (get_instance_status b.id (set_account_error b reason r)) ≡ false
unfolding get_instance_status set_account_error
set_account_error-not_running b reason r = go (get r b.id)
  where
    go :
        (o : Option ProxyInstance)
        → is_running_status (status_of (get (put r b.id (failed_instance b reason o)) b.id)) ≡ false
    go none = rw (get-put r b.id b.id (failed_instance b reason none), eq_refl b.id) refl
    go (some inst) =
        rw (get-put r b.id b.id (failed_instance b reason (some inst)), eq_refl b.id) refl

-- What DisableAccount leaves of the accounts and of the instances, for an account that is there and
-- on a disk that takes the write.
module _ (env : Env) (g : Gateway) (xs : List Account) (id reason : String) (a : Account)
    (e : contents g.accounts.file ≡ some xs) (written : g.accounts.fate ≡ lands)
    (there : first (has_id id) xs ≡ some a) where
  updated : update_account id off g.accounts ≡ (
    Result.ok (some (apply_updates off a)),
    record (g.accounts) { file = object (update_first (has_id id) (apply_updates off) xs) },
  )
  unfolding update_account update_at read write
  updated = rw (e, there, written) refl

  after : Result (Option Account) × Disk Account → Gateway
  after (r, d) = disabled env id reason r (record g { accounts = d })

  disabled-accounts :
      (disable_account env id reason g).accounts.file
      ≡ object (update_first (has_id id) (apply_updates off) xs)
  unfolding disable_account after
  disabled-accounts =
      ap (λ r. (after r).accounts.file) updated
      ∙ ap (λ d. d.file) (evict-accounts env id (with_error (some (apply_updates off a)) reason _))

  disabled-instances :
      (disable_account env id reason g).instances
      ≡ set_account_error (apply_updates off a) reason g.instances
  unfolding disable_account after
  disabled-instances =
      ap (λ r. (after r).instances) updated
      ∙ evict-instances env id (with_error (some (apply_updates off a)) reason _)

  same_id : a.id ≡ id
  same_id = (exists_of_first account_id id xs a there).1

  pub not_running : has_running_instance (disable_account env id reason g) id ≡ false
  unfolding apply_updates
  not_running =
      ap (λ r. is_running_status (get_instance_status id r)) disabled-instances
      ∙ subst
          (λ i.
            is_running_status
              (get_instance_status i (set_account_error (apply_updates off a) reason g.instances))
            ≡ false)
          same_id (set_account_error-not_running (apply_updates off a) reason g.instances)

  pub not_enabled : (accounts_of (disable_account env id reason g)).is_enabled id ≡ false
  unfolding contents apply_updates get
  not_enabled =
      ap (λ f. enabled_among id (contents f)) disabled-accounts
      ∙ rw
          (
            first-update_first account_id id id (apply_updates off) xs (λ b. refl),
            eq_refl id,
            there,
          )
          refl

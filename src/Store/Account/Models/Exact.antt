-- ===== src/Store/Account/Models/Exact.antt =====
-- The two readers of blocked models agree, and blocking adds exactly one pair.
use copilot_pool_gateway.Base.{
  String, ◌≡◌, refl, Bool, true, false, ◌||◌, ◌&&◌, List, [], ◌∷◌, ◌++◌, Option, none, some, arith,
  ◌==◌, eq_iff, if◌then◌else◌, first, inl, inr, Bool-cases,
}
use copilot_pool_gateway.Base.StringMap.{StringMap, get, put, get-put}
use copilot_pool_gateway.Base.Keyed.{UniqueKeys, first-none_of_exists, first-update_first}
use copilot_pool_gateway.Store.Disk.{Disk, contents, read, write, lands}
use copilot_pool_gateway.Store.Account.{Account, account_id, has_id}
use copilot_pool_gateway.Store.Account.Models.{
  normalize_model_key, normalize_model_key_idem, lists_model, has_blocked_model, blocked_in,
  is_model_blocked, collect_blocked, get_blocked_account_ids, append_blocked,
  block_model_for_account,
}

-- `blocked[id]` of Go's map, false where the key is missing.
abbrev pub is_set : Option Bool → Bool
is_set none = false
is_set (some b) = b

abbrev is_some : Option Account → Bool
is_some none = false
is_some (some a) = true

has_blocked_model-normalize :
    (a : Account) (model : String)
    → has_blocked_model a (normalize_model_key model) ≡ has_blocked_model a model
unfolding has_blocked_model
has_blocked_model-normalize a model = rw normalize_model_key_idem

blocked_in-normalize :
    (o : Option Account) (model : String)
    → blocked_in (normalize_model_key model) o ≡ blocked_in model o
blocked_in-normalize none model = refl
blocked_in-normalize (some a) model = has_blocked_model-normalize a model

blocked_in_empty :
    (o : Option Account) (model : String)
    → (normalize_model_key model == "") ≡ true
    → blocked_in model o ≡ false
unfolding has_blocked_model
blocked_in_empty none model h = refl
blocked_in_empty (some a) model h = rw h

collect_blocked_lem :
    (model id : String) (xs : List Account) (m : StringMap Bool)
    → UniqueKeys account_id xs
    → is_set (get (collect_blocked model xs m) id)
      ≡ (blocked_in model (first (has_id id) xs) || is_set (get m id))
unfolding collect_blocked
collect_blocked_lem model id [] m u = refl
collect_blocked_lem model id (a ∷ rest) m u = ground (
  arith,
  collect_blocked_lem model id rest (if has_blocked_model a model then put m a.id true else m) u.1,
  get-put m a.id id true,
  first-none_of_exists account_id a.id rest u.0,
  eq_iff a.id id,
)

-- On a readable file with distinct IDs, an account is in the set of blocked accounts of a model
-- exactly when the question for this account and model says that it is blocked.
pub get_blocked_account_ids-agrees :
    (d : Disk Account) (xs : List Account) (id model : String)
    → contents d.file ≡ some xs
    → UniqueKeys account_id xs
    → is_set (get (get_blocked_account_ids d model) id) ≡ is_model_blocked d id model
unfolding get_blocked_account_ids is_model_blocked get
get_blocked_account_ids-agrees d xs id model e u =
    elim (Bool-cases (normalize_model_key model == "")) [
      | inl h ↦ rw (h, e, blocked_in_empty (first (has_id id) xs) model h) refl
      | inr h ↦ ground (
        arith,
        collect_blocked_lem (normalize_model_key model) id xs [] u,
        blocked_in-normalize (first (has_id id) xs) model,
      )
    ]

lists_model-append :
    (q n : String) (xs : List String)
    → lists_model q (xs ++ n ∷ []) ≡ (lists_model q xs || normalize_model_key n == q)
lists_model-append q n [] = ground arith
lists_model-append q n (x ∷ rest) = ground (arith, lists_model-append q n rest)

module _ (model : String) (named : (normalize_model_key model == "") ≡ false) where
  abbrev norm : String
  norm = normalize_model_key model

  has_blocked_model-append_blocked :
      (a : Account) (m : String)
      → has_blocked_model (append_blocked norm a) m
        ≡ (has_blocked_model a m || normalize_model_key m == norm)
  unfolding has_blocked_model
  has_blocked_model-append_blocked a m = ground (
    arith,
    lists_model-append (normalize_model_key m) norm a.blocked_models,
    normalize_model_key_idem model,
    eq_iff norm (normalize_model_key m),
    eq_iff (normalize_model_key m) norm,
    eq_iff (normalize_model_key m) "",
    eq_iff norm "",
    named,
  )

  -- Already blocked accounts answer for every spelling of the model.
  has_blocked_model_same :
      (a : Account) (m : String)
      → has_blocked_model a norm ≡ true
      → has_blocked_model a m ≡ (has_blocked_model a m || normalize_model_key m == norm)
  has_blocked_model_same a m h =
      ground (arith, has_blocked_model-normalize a m, eq_iff (normalize_model_key m) norm)

  blocked_in-append_blocked :
      (o : Option Account) (m : String)
      → blocked_in m (elim o [ none ↦ none | some a ↦ some (append_blocked norm a) ])
        ≡ (blocked_in m o || (is_some o && normalize_model_key m == norm))
  blocked_in-append_blocked none m = refl
  blocked_in-append_blocked (some a) m = has_blocked_model-append_blocked a m

  -- Blocking a model that is not blank for an account that is there, on a disk that takes the write, makes exactly
  -- that account blocked for exactly the spellings of that model, and changes no other answer.
  pub block_model_for_account-exact :
      (d : Disk Account) (xs : List Account) (id : String) (a : Account)
      → contents d.file ≡ some xs
      → d.fate ≡ lands
      → first (has_id id) xs ≡ some a
      → (j m : String)
      → is_model_blocked (block_model_for_account id model d).1 j m
        ≡ (is_model_blocked d j m || (id == j && normalize_model_key m == norm))
  unfolding block_model_for_account is_model_blocked read write contents
  block_model_for_account-exact d xs id a e written found j m = ground (
    arith,
    named,
    has_blocked_model_same a m,
    first-update_first account_id id j (append_blocked norm) xs (λ b. refl),
    blocked_in-append_blocked (first (has_id j) xs) m,
    eq_iff id j,
  )

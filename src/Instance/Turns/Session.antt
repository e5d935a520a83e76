-- ===== src/Instance/Turns/Session.antt =====
-- instance/copilot_turns.go: ResolveResponseFunctionCallSession, which decides where a request that
-- continues earlier function calls may go.
pub mod Owners
use Prim.Native.String.{compare}
use Prim.Native.Nat.{Ordering}
use copilot_pool_gateway.Base.{
  ℕ, ◌+◌, ◌-◌, String, Bool, true, false, List, [], ◌∷◌, Option, none, some, ◌==◌, if◌then◌else◌,
  length, exists,
}
use copilot_pool_gateway.Instance.Turns.{unique_trimmed}
use copilot_pool_gateway.Instance.Turns.Bindings.{Metadata, TurnStore, lookup_turn_account}

-- SessionResolutionKind
pub data SessionResolutionKind : Type 0 where
  canonical split orphan : SessionResolutionKind

pub record SessionResolution : Type 0 where
  pub kind : SessionResolutionKind
  pub account_id : String
  pub split_accounts : List String
  pub hit_count : ℕ
  pub miss_count : ℕ

abbrev is_before : String → String → Bool
is_before a b = elim (compare a b) [ Ordering.lt ↦ true | _ ↦ false ]

insert_account : String → List String → List String
insert_account a [] = a ∷ []
insert_account a (b ∷ rest) =
    let later = insert_account a rest in if is_before b a then b ∷ later else a ∷ b ∷ rest

-- `sort.Strings`
unfoldable pub sort_accounts : List String → List String
unfolding insert_account
sort_accounts [] = []
sort_accounts (a ∷ rest) = insert_account a (sort_accounts rest)

abbrev pub member : String → List String → Bool
member a = exists (λ b. b == a)

-- `accountSeen[accountID] = true`
abbrev pub mark_seen : String → List String → List String
mark_seen a seen = if member a seen then seen else a ∷ seen

abbrev pub mark_found : Option String → List String → ℕ → List String × ℕ
mark_found none seen hits = (seen, hits)
mark_found (some account_id) seen hits = (mark_seen account_id seen, hits + 1)

-- The loop over the identifiers, with `accountSeen` and `hits`.
unfoldable pub look_up_all :
    Metadata → ℕ → List String → List String → ℕ → TurnStore → (List String × ℕ) × TurnStore
unfolding lookup_turn_account
look_up_all md now [] seen hits s = ((seen, hits), s)
look_up_all md now (id ∷ ids) seen hits s =
    let (found, s') = lookup_turn_account md now id s in
    let (seen', hits') = mark_found found seen hits in look_up_all md now ids seen' hits' s'

-- The switch over `len(accountSeen)`.
unfoldable pub classify : List String → ℕ → ℕ → SessionResolution
unfolding sort_accounts
classify [] hits miss = record {
  kind = orphan;
  account_id = "";
  split_accounts = [];
  hit_count = 0;
  miss_count = miss;
}
classify (a ∷ []) hits miss = record {
  kind = canonical;
  account_id = a;
  split_accounts = [];
  hit_count = hits;
  miss_count = miss;
}
classify (a ∷ b ∷ rest) hits miss = record {
  kind = split;
  account_id = "";
  split_accounts = sort_accounts (a ∷ b ∷ rest);
  hit_count = hits;
  miss_count = miss;
}

-- From the trimmed identifiers on.
unfoldable pub resolve_trimmed :
    Metadata → ℕ → List String → TurnStore → SessionResolution × TurnStore
unfolding look_up_all classify
resolve_trimmed md now [] s = (classify [] 0 0, s)
resolve_trimmed md now (id ∷ ids) s =
    let ((seen, hits), s') = look_up_all md now (id ∷ ids) [] 0 s in
    (classify seen hits (length (id ∷ ids) - hits), s')

-- ResolveResponseFunctionCallSession
unfoldable pub resolve_response_function_call_session :
    Metadata → ℕ → List String → TurnStore → SessionResolution × TurnStore
unfolding resolve_trimmed unique_trimmed
resolve_response_function_call_session md now call_ids s =
    resolve_trimmed md now (unique_trimmed call_ids) s

-- ===== src/Instance/Usage/Window.antt =====
-- The trimmed list against the whole history of requests.
use copilot_pool_gateway.Base.{
  ℕ, ◌+◌, ◌≤◌, String, ◌≡◌, refl, ap, ◌∙◌, Bool, true, false, not, ◌&&◌, List, [], ◌∷◌, ◌++◌,
  Option, none, some, arith, ◌==◌, eq_iff, if◌then◌else◌, ltb, length, keep, Bool-cases, inl, inr,
}
use copilot_pool_gateway.Base.StringMap.{get, get-put}
use copilot_pool_gateway.Instance.Usage.{
  UsageRecord, AccountUsage, UsageMap, trim_records, record_usage, record_request, or_new,
  get_window_request_count, read_count,
}

-- A request of some account, with what RecordRequest is told of it.
pub record Request : Type 0 where
  pub account : String
  pub at : ℕ
  pub failed : Bool
  pub is_429 : Bool

-- RecordRequest for each request in turn.
unfoldable pub replay : List Request → UsageMap → UsageMap
unfolding record_request
replay [] m = m
replay (r ∷ rest) m = replay rest (record_request r.account r.failed r.is_429 r.at m)

-- No request is older than `low`, none newer than `high`, and none older than one before it.
abbrev pub InOrder : ℕ → ℕ → List Request → Type 0
InOrder low high [] = low ≤ high
InOrder low high (r ∷ rest) = (low ≤ r.at) × InOrder r.at high rest

abbrev pub is_counted : String → ℕ → Request → Bool
is_counted id now r = r.account == id && not (ltb (r.at + 3600000000000) now)

-- The records that an account's requests would leave if nothing were trimmed.
mine : String → List Request → List UsageRecord
mine id [] = []
mine id (r ∷ rest) =
    let more = mine id rest in
    if r.account == id
    then (record { at = r.at; failed = r.failed; is_429 = r.is_429 }) ∷ more
    else more

-- Trimming early makes no difference to a later trim.
trim-trim :
    (early now : ℕ) (xs ys : List UsageRecord)
    → early ≤ now
    → trim_records now (trim_records early xs ++ ys) ≡ trim_records now (xs ++ ys)
unfolding trim_records
trim-trim early now [] ys le = refl
trim-trim early now (x ∷ rest) ys le = ground (arith, trim-trim early now rest ys le)

append_one : (xs ys : List UsageRecord) (x : UsageRecord) → (xs ++ (x ∷ [])) ++ ys ≡ xs ++ (x ∷ ys)
append_one [] ys x = refl
append_one (z ∷ xs) ys x = ap (λ zs. z ∷ zs) (append_one xs ys x)

module _ {A : Type 0} where
  if_true : (b : Bool) (x y : A) → b ≡ true → (if b then x else y) ≡ x
  if_true b x y h = rw h refl

  if_false : (b : Bool) (x y : A) → b ≡ false → (if b then x else y) ≡ y
  if_false b x y h = rw h refl

abbrev records_of : String → UsageMap → List UsageRecord
records_of id m = (or_new (get m id)).records

records-record_request_other :
    (id : String) (r : Request) (m : UsageMap)
    → (r.account == id) ≡ false
    → records_of id (record_request r.account r.failed r.is_429 r.at m) ≡ records_of id m
unfolding record_request
records-record_request_other id r m e =
    ap (λ o. (or_new o).records)
      (get-put m r.account id (record_usage r.at r.failed r.is_429 (or_new (get m r.account)))
        ∙ if_false _ _ _ e)

records-record_request :
    (id : String) (r : Request) (m : UsageMap)
    → (r.account == id) ≡ true
    → records_of id (record_request r.account r.failed r.is_429 r.at m)
      ≡ trim_records r.at
          (records_of id m ++ ((record { at = r.at; failed = r.failed; is_429 = r.is_429 }) ∷ []))
unfolding record_request record_usage
records-record_request id r m e =
    let same : r.account ≡ id = (eq_iff r.account id).0 e in
    ap (λ o. (or_new o).records)
      (get-put m r.account id (record_usage r.at r.failed r.is_429 (or_new (get m r.account)))
        ∙ if_true _ _ _ e)
    ∙ rw same refl

InOrder-first : (low high : ℕ) (rs : List Request) → InOrder low high rs → low ≤ high
InOrder-first low high [] h = h
InOrder-first low high (r ∷ rest) h = omega (arith, InOrder-first r.at high rest h.1, h.0)

records-replay :
    (id : String) (now low : ℕ) (rs : List Request) (m : UsageMap)
    → InOrder low now rs
    → trim_records now (records_of id (replay rs m))
      ≡ trim_records now (records_of id m ++ mine id rs)
unfolding replay mine
records-replay id now low [] m h = ap (trim_records now) (append_nil (records_of id m))
  where
    append_nil : (xs : List UsageRecord) → xs ≡ xs ++ []
    append_nil [] = refl
    append_nil (x ∷ xs) = ap (λ zs. x ∷ zs) (append_nil xs)
records-replay id now low (r ∷ rest) m h =
    records-replay id now r.at rest _ h.1 ∙ (elim (Bool-cases (r.account == id)) [
      | inl e ↦
          rw (e, records-record_request id r m e)
            (trim-trim r.at now _ (mine id rest) (InOrder-first r.at now rest h.1)
              ∙ ap (trim_records now) (append_one (records_of id m) (mine id rest) _))
      | inr e ↦ rw (e, records-record_request_other id r m e) refl
    ])

all_counted :
    (id : String) (now low high : ℕ) (rs : List Request)
    → InOrder low high rs
    → now ≤ low + 3600000000000
    → length (mine id rs) ≡ length (keep (is_counted id now) rs)
unfolding mine
all_counted id now low high [] h le = refl
all_counted id now low high (r ∷ rest) h le =
    ground (arith, all_counted id now r.at high rest h.1, h.0)

length-trim_records :
    (id : String) (now low high : ℕ) (rs : List Request)
    → InOrder low high rs
    → length (trim_records now (mine id rs)) ≡ length (keep (is_counted id now) rs)
unfolding mine trim_records
length-trim_records id now low high [] h = refl
length-trim_records id now low high (r ∷ rest) h =
    ground
      (arith, length-trim_records id now r.at high rest h.1, all_counted id now r.at high rest h.1)

count_of_get :
    (id : String) (now : ℕ) (m : UsageMap)
    → (get_window_request_count id now m).0 ≡ length (trim_records now (records_of id m))
unfolding get_window_request_count trim_records
count_of_get id now m = go (get m id)
  where
    go :
        (o : Option AccountUsage)
        → (read_count o id now m).0 ≡ length (trim_records now (or_new o).records)
    go none = refl
    go (some u) = refl

-- For requests recorded in the order of their times, none later than `now`: the count of an account
-- is the number of its requests in the hour before `now`, whatever the list has dropped by then.
pub window_count-replay :
    (id : String) (now low : ℕ) (rs : List Request)
    → InOrder low now rs
    → (get_window_request_count id now (replay rs [])).0 ≡ length (keep (is_counted id now) rs)
unfolding get
window_count-replay id now low rs h =
    count_of_get id now (replay rs [])
    ∙ ap length (records-replay id now low rs [] h)
    ∙ length-trim_records id now low now rs h

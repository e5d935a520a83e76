-- ===== src/Instance/LoadBalancer/LeastUsed.antt =====
-- The account of the strategy "least-used" has the fewest requests.
use copilot_pool_gateway.Base.{
  ℕ, ◌≤◌, String, ◌≡◌, refl, sym, ap, ◌∙◌, Bool, true, false, List, [], ◌∷◌, Option, none, some,
  arith, ◌==◌, eq_iff, if◌then◌else◌, ltb, length, All,
}
use copilot_pool_gateway.Base.StringMap.{get, put, get-put}
use copilot_pool_gateway.Store.Account.{Account}
use copilot_pool_gateway.Instance.Usage.{
  UsageRecord, AccountUsage, UsageMap, trim_records, trimmed_usage, read_count,
  get_window_request_count,
}
use copilot_pool_gateway.Instance.LoadBalancer.{least_used_from, select_least_used}

-- The requests of an account in the window.
abbrev pub count : ℕ → UsageMap → String → ℕ
count now m id = (get_window_request_count id now m).0

trim_records_idem :
    (now : ℕ) (rs : List UsageRecord) → trim_records now (trim_records now rs) ≡ trim_records now rs
unfolding trim_records
trim_records_idem now [] = refl
trim_records_idem now (r ∷ rest) = ground (arith, trim_records_idem now rest)

abbrev counted : ℕ → Option AccountUsage → ℕ
counted now none = 0
counted now (some u) = length (trim_records now u.records)

count_of_get : (now : ℕ) (m : UsageMap) (id : String) → count now m id ≡ counted now (get m id)
unfolding get_window_request_count
count_of_get now m id = go (get m id)
  where
    go : (o : Option AccountUsage) → (read_count o id now m).0 ≡ counted now o
    go none = refl
    go (some u) = refl

-- Reading one account's count changes no count.
pub count-read :
    (now : ℕ) (m : UsageMap) (i j : String)
    → count now (get_window_request_count i now m).1 j ≡ count now m j
unfolding get_window_request_count
count-read now m i j = go (get m i) refl
  where
    go :
        (o : Option AccountUsage)
        → get m i ≡ o
        → count now (read_count o i now m).1 j ≡ count now m j
    go none e = refl
    go (some u) e =
        count_of_get now (put m i (trimmed_usage now u)) j
        ∙ ap (counted now) (get-put m i j (trimmed_usage now u))
        ∙ pick (i == j) refl
        ∙ sym (count_of_get now m j)
      where
        pick :
            (b : Bool)
            → (i == j) ≡ b
            → counted now (if b then some (trimmed_usage now u) else get m j)
              ≡ counted now (get m j)
        pick true t =
            let same : i ≡ j = (eq_iff i j).0 t in
            ap length (trim_records_idem now u.records)
            ∙ sym (ap (counted now) (ap (get m) (sym same) ∙ e))
        pick false t = refl

module _ (now : ℕ) (m₀ : UsageMap) where
  -- `z` has no more requests than each account of the list.
  abbrev Fewest : Account → List Account → Type 0
  Fewest z list = All (λ x. count now m₀ z.id ≤ count now m₀ x.id) list

  if_Fewest :
      (b : Bool) (x y : Account × UsageMap) (c : ℕ) (list : List Account)
      → (b ≡ true → (count now m₀ x.0.id ≤ c) × Fewest x.0 list)
      → (b ≡ false → (count now m₀ y.0.id ≤ c) × Fewest y.0 list)
      → let z : Account = (if b then x else y).0 in (count now m₀ z.id ≤ c) × Fewest z list
  if_Fewest true x y c list p q = p refl
  if_Fewest false x y c list p q = q refl

  least_used_from-Fewest :
      (best : Account) (c : ℕ) (rest : List Account) (m : UsageMap)
      → ((j : String) → count now m j ≡ count now m₀ j)
      → c ≡ count now m₀ best.id
      → let z : Account = (least_used_from now best c rest m).0 in
        (count now m₀ z.id ≤ c) × Fewest z rest
  unfolding least_used_from
  least_used_from-Fewest best c [] m same e = (omega (arith, e), tt)
  least_used_from-Fewest best c (a ∷ rest) m same e =
      let k : ℕ = count now m a.id in
      let m' : UsageMap = (get_window_request_count a.id now m).1 in
      let same' : (j : String) → count now m' j ≡ count now m₀ j =
        λ j. count-read now m a.id j ∙ same j in
      if_Fewest (ltb k c) _ _ c (a ∷ rest)
        (λ t.
          let (le, others) = least_used_from-Fewest a k rest m' same' (same a.id) in
          (ground (arith, le), (omega (arith, le, same a.id), others)))
        (λ t.
          let (le, others) = least_used_from-Fewest best c rest m' same' e in
          (le, (ground (arith, le, same a.id), others)))

-- The account of the strategy "least-used" has no more requests in the hour before `now` than any
-- account to choose from.
pub select_least_used-Fewest :
    (now : ℕ) (first : Account) (rest : List Account) (m : UsageMap)
    → let z : Account = (select_least_used now first rest m).0 in
      All
        (λ x. (get_window_request_count z.id now m).0 ≤ (get_window_request_count x.id now m).0)
        (first ∷ rest)
unfolding select_least_used
select_least_used-Fewest now first rest m =
    least_used_from-Fewest now m first (count now m first.id) rest
      (get_window_request_count first.id now m).1 (count-read now m first.id) refl

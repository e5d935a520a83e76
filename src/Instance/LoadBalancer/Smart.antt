-- ===== src/Instance/LoadBalancer/Smart.antt =====
-- The account of the strategy "smart" has the lowest score.
use copilot_pool_gateway.Base.{
  ℕ, ◌+◌, ◌*◌, ◌≤◌, String, ◌≡◌, refl, sym, ap, ◌∙◌, Bool, true, false, List, [], ◌∷◌, Option, none,
  some, arith, ◌==◌, eq_iff, if◌then◌else◌, ltb, All,
}
use copilot_pool_gateway.Base.StringMap.{get, get-put}
use copilot_pool_gateway.Store.Account.{Account}
use copilot_pool_gateway.Instance.Usage.{
  AccountUsage, UsageMap, trimmed_usage, read_count, get_window_request_count, last_of,
  get_last_429_time,
}
use copilot_pool_gateway.Instance.LoadBalancer.{penalty_of, score, smart_from, select_smart}
use copilot_pool_gateway.Instance.LoadBalancer.LeastUsed.{count-read}

-- Reading one account's count changes no time of a 429.
last-read :
    (now : ℕ) (m : UsageMap) (i j : String)
    → get_last_429_time j (get_window_request_count i now m).1 ≡ get_last_429_time j m
unfolding get_window_request_count get_last_429_time
last-read now m i j = go (get m i) refl
  where
    go :
        (o : Option AccountUsage)
        → get m i ≡ o
        → last_of (get (read_count o i now m).1 j) ≡ last_of (get m j)
    go none e = refl
    go (some u) e = ap last_of (get-put m i j (trimmed_usage now u)) ∙ pick (i == j) refl
      where
        pick :
            (b : Bool)
            → (i == j) ≡ b
            → last_of (if b then some (trimmed_usage now u) else get m j) ≡ last_of (get m j)
        pick true t =
            let same : i ≡ j = (eq_iff i j).0 t in sym (ap last_of (ap (get m) (sym same) ∙ e))
        pick false t = refl

abbrev points : ℕ → UsageMap → Account → ℕ
points now m a = (score now a m).0

-- Scoring one account changes no score.
points-score :
    (now : ℕ) (m : UsageMap) (a x : Account) → points now (score now a m).1 x ≡ points now m x
unfolding score
points-score now m a x =
    let m' : UsageMap = (get_window_request_count a.id now m).1 in
    same_sum (count-read now m a.id x.id) (
      ap (penalty_of now)
        (last-read now m' x.id x.id ∙ last-read now m a.id x.id ∙ sym (last-read now m x.id x.id)))
  where
    same_sum : {c d p q : ℕ} → c ≡ d → p ≡ q → c * 300000000000 + p ≡ d * 300000000000 + q
    same_sum e f = omega (arith, e, f)

module _ (now : ℕ) (m₀ : UsageMap) where
  -- `z` has no higher score than each account of the list.
  abbrev Lowest : Account → List Account → Type 0
  Lowest z list = All (λ x. points now m₀ z ≤ points now m₀ x) list

  if_Lowest :
      (b : Bool) (x y : Account × UsageMap) (c : ℕ) (list : List Account)
      → (b ≡ true → (points now m₀ x.0 ≤ c) × Lowest x.0 list)
      → (b ≡ false → (points now m₀ y.0 ≤ c) × Lowest y.0 list)
      → let z : Account = (if b then x else y).0 in (points now m₀ z ≤ c) × Lowest z list
  if_Lowest true x y c list p q = p refl
  if_Lowest false x y c list p q = q refl

  smart_from-Lowest :
      (best : Account) (c : ℕ) (rest : List Account) (m : UsageMap)
      → ((x : Account) → points now m x ≡ points now m₀ x)
      → c ≡ points now m₀ best
      → let z : Account = (smart_from now best c rest m).0 in (points now m₀ z ≤ c) × Lowest z rest
  unfolding smart_from
  smart_from-Lowest best c [] m same e = (omega (arith, e), tt)
  smart_from-Lowest best c (a ∷ rest) m same e =
      let k : ℕ = points now m a in
      let m' : UsageMap = (score now a m).1 in
      let same' : (x : Account) → points now m' x ≡ points now m₀ x =
        λ x. points-score now m a x ∙ same x in
      if_Lowest (ltb k c) _ _ c (a ∷ rest)
        (λ t.
          let (le, others) = smart_from-Lowest a k rest m' same' (same a) in
          (ground (arith, le), (omega (arith, le, same a), others)))
        (λ t.
          let (le, others) = smart_from-Lowest best c rest m' same' e in
          (le, (ground (arith, le, same a), others)))

-- The account of the strategy "smart" has no higher score than any account to choose from.
pub select_smart-Lowest :
    (now : ℕ) (first : Account) (rest : List Account) (m : UsageMap)
    → let z : Account = (select_smart now first rest m).0 in
      All (λ x. (score now z m).0 ≤ (score now x m).0) (first ∷ rest)
unfolding select_smart
select_smart-Lowest now first rest m =
    smart_from-Lowest now m first (points now m first) rest (score now first m).1
      (points-score now m first) refl

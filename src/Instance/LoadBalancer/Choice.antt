-- ===== src/Instance/LoadBalancer/Choice.antt =====
-- What the strategies choose.
use copilot_pool_gateway.Base.{
  ℕ, zero, suc, ◌%◌, ltb_ℤ, String, ◌≡◌, refl, subst, Bool, true, false, ◌&&◌, List, [], ◌∷◌,
  Option, none, some, arith, ◌==◌, if◌then◌else◌, ltb, length, keep, exists, get_or, Bool-cases,
  inl, inr, All,
}
use copilot_pool_gateway.Store.Disk.{Result, Disk, contents, read}
use copilot_pool_gateway.Store.Account.{Account}
use copilot_pool_gateway.Store.Account.Lookup.{get_accounts, get_enabled_accounts}
use copilot_pool_gateway.Instance.Usage.{UsageMap, get_window_request_count}
use copilot_pool_gateway.Instance.LoadBalancer.{
  Balancer, select_round_robin, select_by_priority, least_used_from, select_least_used, score,
  smart_from, select_smart, is_available, choose, choose_among, select_from, select_account,
}

-- `P` holds of the chosen account if it holds of all accounts that there are.
module _ (P : Account → Type 0) where
  get_or-All : (a : Account) (list : List Account) (i : ℕ) → P a → All P list → P (get_or list i a)
  get_or-All a [] i p ps = p
  get_or-All a (b ∷ rest) zero p ps = ps.0
  get_or-All a (b ∷ rest) (suc i) p ps = get_or-All a rest i p ps.1

  if-All : (b : Bool) (x y : Account) → P x → P y → P (if b then x else y)
  if-All true x y p q = p
  if-All false x y p q = q

  select_by_priority-All :
      (best : Account) (rest : List Account)
      → P best
      → All P rest
      → P (select_by_priority best rest)
  unfolding select_by_priority
  select_by_priority-All best [] p ps = p
  select_by_priority-All best (a ∷ rest) p ps =
      select_by_priority-All (if ltb_ℤ best.priority a.priority then a else best) rest
        (if-All _ a best ps.0 p) ps.1

  least_used_from-All :
      (now : ℕ) (best : Account) (best_count : ℕ) (rest : List Account) (m : UsageMap)
      → P best
      → All P rest
      → P (least_used_from now best best_count rest m).0
  unfolding least_used_from
  least_used_from-All now best best_count [] m p ps = p
  least_used_from-All now best best_count (a ∷ rest) m p ps =
      let (count, m') = get_window_request_count a.id now m in
      elim (Bool-cases (ltb count best_count)) [
        | inl e ↦ rw e (least_used_from-All now a count rest m' ps.0 ps.1)
        | inr e ↦ rw e (least_used_from-All now best best_count rest m' p ps.1)
      ]

  smart_from-All :
      (now : ℕ) (best : Account) (best_score : ℕ) (rest : List Account) (m : UsageMap)
      → P best
      → All P rest
      → P (smart_from now best best_score rest m).0
  unfolding smart_from
  smart_from-All now best best_score [] m p ps = p
  smart_from-All now best best_score (a ∷ rest) m p ps =
      let (points, m') = score now a m in
      elim (Bool-cases (ltb points best_score)) [
        | inl e ↦ rw e (smart_from-All now a points rest m' ps.0 ps.1)
        | inr e ↦ rw e (smart_from-All now best best_score rest m' p ps.1)
      ]

  choose-All :
      (strategy : String) (now : ℕ) (a : Account) (rest : List Account) (b : Balancer)
      → P a
      → All P rest
      → P (choose strategy now a rest b).0
  unfolding choose select_least_used select_smart select_round_robin
  choose-All strategy now a rest b p ps =
      pair_if (strategy == "priority") _ _ (select_by_priority-All a rest p ps) (
        pair_if (strategy == "least-used") _ _ (least_used_from-All now a _ rest _ p ps) (
          pair_if (strategy == "smart") _ _ (smart_from-All now a _ rest _ p ps)
            (get_or-All a (a ∷ rest) (b.rr_index % length (a ∷ rest)) p (p, ps))))
    where
      pair_if : (t : Bool) (x y : Account × Balancer) → P x.0 → P y.0 → P (if t then x else y).0
      pair_if true x y px py = px
      pair_if false x y px py = py

-- The accounts that pass both filters do.
abbrev IsCandidate : (String → Bool) → (String → Bool) → Account → Type 0
IsCandidate exclude running a = (a.enabled ≡ true) × (exclude a.id ≡ false) × (running a.id ≡ true)

keep-All :
    (P : Account → Type 0) (test : Account → Bool) (list : List Account)
    → All (λ a. test a ≡ true → P a) list
    → All P (keep test list)
keep-All P test [] h = tt
keep-All P test (a ∷ rest) h = go _ (test a) h.0 (keep-All P test rest h.1)
  where
    go :
        (xs : List Account) (b : Bool)
        → (b ≡ true → P a)
        → All P xs
        → All P (if b then a ∷ xs else xs)
    go xs true p ps = (p refl, ps)
    go xs false p ps = ps

always-All : (P : Account → Type 0) (list : List Account) → ((a : Account) → P a) → All P list
always-All P [] p = tt
always-All P (a ∷ rest) p = (p a, always-All P rest p)

map-All :
    (P Q : Account → Type 0) (list : List Account)
    → ((a : Account) → P a → Q a)
    → All P list
    → All Q list
map-All P Q [] f h = tt
map-All P Q (a ∷ rest) f h = (f a h.0, map-All P Q rest f h.1)

abbrev IfChosen : (Account → Type 0) → Result (Option Account) → Type 0
IfChosen P (Result.ok (some a)) = P a
IfChosen P (Result.ok none) = Unit
IfChosen P (Result.err e) = Unit

choose_among-All :
    (P : Account → Type 0) (strategy : String) (now : ℕ) (list : List Account) (b : Balancer)
    → All P list
    → IfChosen P (choose_among strategy now list b).0
choose_among-All P strategy now [] b h = tt
choose_among-All P strategy now (a ∷ rest) b h = choose-All P strategy now a rest b h.0 h.1

select_account-All :
    (strategy : String) (exclude running : String → Bool) (now : ℕ) (file : Option (List Account))
    (disk : Disk Account) (b : Balancer)
    → contents disk.file ≡ file
    → IfChosen (IsCandidate exclude running) (select_account strategy exclude running now disk b).0
unfolding select_account select_from get_enabled_accounts get_accounts read
select_account-All strategy exclude running now none disk b e = rw e tt
select_account-All strategy exclude running now (some accounts) disk b e = rw e (
    choose_among-All (IsCandidate exclude running) strategy now _ b (
      keep-All (IsCandidate exclude running) (is_available exclude running) _ (
        map-All (λ a. a.enabled ≡ true) _ _
          (λ a enabled available. (enabled, ground arith, ground arith))
          (keep-All (λ a. a.enabled ≡ true) (λ a. a.enabled) accounts
            (always-All _ accounts (λ a h. h))))))

-- The account that SelectAccount returns, by any strategy, is enabled, not excluded, and running.
pub select_account_candidate :
    (strategy : String) (exclude running : String → Bool) (now : ℕ) (disk : Disk Account)
    (b : Balancer) (a : Account)
    → (select_account strategy exclude running now disk b).0 ≡ Result.ok (some a)
    → (a.enabled ≡ true) × (exclude a.id ≡ false) × (running a.id ≡ true)
select_account_candidate strategy exclude running now disk b a e =
    subst (IfChosen (IsCandidate exclude running)) e
      (select_account-All strategy exclude running now _ disk b refl)

choose_among-some :
    (strategy : String) (now : ℕ) (list : List Account) (b : Balancer)
    → ltb 0 (length list) ≡ true
    → (a : Account) × ((choose_among strategy now list b).0 ≡ Result.ok (some a))
choose_among-some strategy now [] b h = absurd (ground arith)
choose_among-some strategy now (x ∷ rest) b h = ((choose strategy now x rest b).0, refl)

keep_some :
    (p q : Account → Bool) (list : List Account)
    → exists (λ a. p a && q a) list ≡ true
    → ltb 0 (length (keep q (keep p list))) ≡ true
keep_some p q [] h = absurd (ground arith)
keep_some p q (a ∷ rest) h = elim (Bool-cases (p a)) [
  | inl x ↦ elim (Bool-cases (q a)) [
    | inl y ↦ ground arith
    | inr y ↦ ground (arith, keep_some p q rest)
  ]
  | inr x ↦ ground (arith, keep_some p q rest)
]

-- SelectAccount returns an account, by any strategy, if the file can be read and holds an account
-- that is enabled, not excluded and running.
pub select_account_total :
    (strategy : String) (exclude running : String → Bool) (now : ℕ) (disk : Disk Account)
    (b : Balancer) (accounts : List Account)
    → contents disk.file ≡ some accounts
    → exists (λ a. a.enabled && is_available exclude running a) accounts ≡ true
    → (a : Account) × ((select_account strategy exclude running now disk b).0 ≡ Result.ok (some a))
unfolding select_account select_from get_enabled_accounts get_accounts read
select_account_total strategy exclude running now disk b accounts e h = rw e (
    choose_among-some strategy now _ b
      (keep_some (λ a. a.enabled) (is_available exclude running) accounts h))

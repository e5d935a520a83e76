-- ===== src/Instance/LoadBalancer/Highest.antt =====
-- The account of the strategy "priority" has the highest priority.
use copilot_pool_gateway.Base.{
  ℤ, pos, negsuc, ltb_ℤ, ◌≡◌, refl, Bool, true, false, List, [], ◌∷◌, arith, if◌then◌else◌, All,
}
use copilot_pool_gateway.Store.Account.{Account}
use copilot_pool_gateway.Instance.LoadBalancer.{select_by_priority}

ltb_ℤ_irrefl : (a : ℤ) → ltb_ℤ a a ≡ false
ltb_ℤ_irrefl (pos a) = ground arith
ltb_ℤ_irrefl (negsuc a) = ground arith

ltb_ℤ_asym : (a b : ℤ) → ltb_ℤ a b ≡ true → ltb_ℤ b a ≡ false
ltb_ℤ_asym (pos a) (pos b) h = ground arith
ltb_ℤ_asym (pos a) (negsuc b) h = absurd (ground arith)
ltb_ℤ_asym (negsuc a) (pos b) h = refl
ltb_ℤ_asym (negsuc a) (negsuc b) h = ground arith

ltb_ℤ_trans : (a b c : ℤ) → ltb_ℤ a b ≡ false → ltb_ℤ b c ≡ false → ltb_ℤ a c ≡ false
ltb_ℤ_trans (pos a) (pos b) (pos c) h k = ground arith
ltb_ℤ_trans (pos a) (pos b) (negsuc c) h k = refl
ltb_ℤ_trans (pos a) (negsuc b) (pos c) h k = absurd (ground arith)
ltb_ℤ_trans (pos a) (negsuc b) (negsuc c) h k = refl
ltb_ℤ_trans (negsuc a) (pos b) c h k = absurd (ground arith)
ltb_ℤ_trans (negsuc a) (negsuc b) (pos c) h k = absurd (ground arith)
ltb_ℤ_trans (negsuc a) (negsuc b) (negsuc c) h k = ground arith

-- No account of the list has a higher priority than `z`.
abbrev Highest : Account → List Account → Type 0
Highest z list = All (λ x. ltb_ℤ z.priority x.priority ≡ false) list

raise :
    (best a : Account) (b : Bool)
    → ltb_ℤ best.priority a.priority ≡ b
    → let next : Account = if b then a else best in
      (ltb_ℤ next.priority best.priority ≡ false) × (ltb_ℤ next.priority a.priority ≡ false)
raise best a true e = (ltb_ℤ_asym best.priority a.priority e, ltb_ℤ_irrefl a.priority)
raise best a false e = (ltb_ℤ_irrefl best.priority, e)

select_by_priority-keeps :
    (best : Account) (rest : List Account)
    → let z : Account = select_by_priority best rest in
      (ltb_ℤ z.priority best.priority ≡ false) × Highest z rest
unfolding select_by_priority
select_by_priority-keeps best [] = (ltb_ℤ_irrefl best.priority, tt)
select_by_priority-keeps best (a ∷ rest) =
    let next : Account = if ltb_ℤ best.priority a.priority then a else best in
    let z : Account = select_by_priority next rest in
    let (over_best, over_a) = raise best a (ltb_ℤ best.priority a.priority) refl in
    let (high, others) = select_by_priority-keeps next rest in
    (
      ltb_ℤ_trans z.priority next.priority best.priority high over_best,
      (ltb_ℤ_trans z.priority next.priority a.priority high over_a, others),
    )

-- No account to choose from has a higher priority than the account of the strategy "priority".
pub select_by_priority-Highest :
    (first : Account) (rest : List Account)
    → let z : Account = select_by_priority first rest in
      All (λ x. ltb_ℤ z.priority x.priority ≡ false) (first ∷ rest)
select_by_priority-Highest first rest = select_by_priority-keeps first rest

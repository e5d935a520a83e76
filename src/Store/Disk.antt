-- ===== src/Store/Disk.antt =====
-- store/account.go and store/public_reauth.go keep a list in one JSON file. `encoding/json` and
-- `os` are seen through what they answer: what `os.ReadFile` and `json.Unmarshal` make of the
-- file, and whether `os.WriteFile` lands. Each operation holds the file's lock from its read to
-- its write, so an operation is one step on the file.
use copilot_pool_gateway.Base.{◌≡◌, refl, ◌⊎◌, inl, inr, Option, none, some, List, []}

-- A file as the readers see it: unreadable, empty or `{}`, no JSON of either shape, an object with
-- the list under its key, or a bare list (the older format).
pub data File (A : Type 0) : Type 0 where
  unreadable : File A
  blank : File A
  malformed : File A
  object : List A → File A
  legacy : List A → File A

-- What `os.WriteFile` will do: the text lands, or the call fails and leaves some file behind.
pub data Fate (A : Type 0) : Type 0 where
  lands : Fate A
  fails : File A → Fate A

pub record Disk (A : Type 0) : Type 0 where
  pub file : File A
  pub fate : Fate A

pub data Failure : Type 0 where
  read_failed write_failed : Failure

pub data Result {ℓ} (R : Type ℓ) : Type ℓ where
  ok : R → Result R
  err : Failure → Result R

pub Result-cases {ℓ} :
    {R : Type ℓ} (r : Result R) → ((a : R) × (r ≡ ok a)) ⊎ ((e : Failure) × (r ≡ err e))
Result-cases (ok a) = inl (a, refl)
Result-cases (err e) = inr (e, refl)

-- An operation on the file: a result and the disk that it leaves.
abbrev pub Action : Type 0 → Type 0 → Type 0
Action A R = Disk A → Result R × Disk A

module _ {A R : Type 0} where
  abbrev pub pure : R → Action A R
  pure r d = (ok r, d)

module _ {A R S : Type 0} where
  abbrev continue : Result R → (R → Action A S) → Action A S
  continue (ok r) f d = f r d
  continue (err e) f d = (err e, d)

  infixl 10 ◌>>=◌
  abbrev pub ◌>>=◌ : Action A R → (R → Action A S) → Action A S
  ◌>>=◌ m f d = let (r, d') = m d in continue r f d'

  infixl 10 ◌>>◌
  abbrev pub ◌>>◌ : Action A R → Action A S → Action A S
  m >> n = m >>= λ _. n

module _ {A : Type 0} where
  -- The list that a readable file holds; what does not parse is the empty list.
  unfoldable pub contents : File A → Option (List A)
  contents unreadable = none
  contents blank = some []
  contents malformed = some []
  contents (object xs) = some xs
  contents (legacy xs) = some xs

  abbrev or_read_failed : Option (List A) → Result (List A)
  or_read_failed none = err read_failed
  or_read_failed (some xs) = ok xs

  -- readAccounts, readPublicReauthSessions
  unfoldable pub read : Action A (List A)
  unfolding contents
  read d = (or_read_failed (contents d.file), d)

  abbrev store : Fate A → List A → Disk A → Result (Unit {0}) × Disk A
  store lands xs d = (ok tt, record d { file = object xs })
  store (fails left) xs d = (err write_failed, record d { file = left })

  -- writeAccounts, writePublicReauthSessions
  unfoldable pub write : List A → Action A (Unit {0})
  write xs d = store d.fate xs d

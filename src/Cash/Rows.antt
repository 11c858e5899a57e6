-- ===== src/Cash/Rows.antt =====
-- Session rows by their primary key: what the queries return is a row, and what `put` changes.
use aris_cloud.Prelude.{
  ℕ, ◌≡◌, ◌≢◌, refl, ◌⊎◌, Bool, true, ◌&&◌, is_some, Option, none, some, List, [], ◌∷◌, All, ◌==◌,
  arith, select, first, if◌then◌else◌, inl, inr, Bool-cases, ==_iff,
}
use mathlib.Core.Path.{subst}
use aris_cloud.Cash.Db.{CashSession, latest, put}
use aris_cloud.Cash.Flow.{only}

unfoldable pub find : ℕ → List CashSession → Option CashSession
find k [] = none
find k (s ∷ ss) = if s.id == k then some s else find k ss

-- No two rows have one id.
abbrev pub UniqueIds : List CashSession → Type 0
UniqueIds [] = Unit
UniqueIds (s ∷ ss) = (find s.id ss ≡ none) × UniqueIds ss

-- The row is stored.
abbrev pub IsStored : CashSession → List CashSession → Type 0
IsStored s rows = find s.id rows ≡ some s

pub find_id : (k : ℕ) (rows : List CashSession) (s : CashSession) → find k rows ≡ some s → s.id ≡ k
unfolding find
find_id k [] s h = cc
find_id k (r ∷ rows) s h = ground (arith, find_id k rows s)

-- A row that some query over the stored rows returns.
abbrev pub Sub : List CashSession → List CashSession → Type 0
Sub xs rows = All (λ s. IsStored s rows) xs

Sub-cons :
    (r : CashSession) (xs rows : List CashSession)
    → find r.id rows ≡ none
    → Sub xs rows
    → Sub xs (r ∷ rows)
unfolding find
Sub-cons r [] rows new h = tt
Sub-cons r (x ∷ xs) rows new h = (ground arith, Sub-cons r xs rows new h.1)

Sub-refl : (rows : List CashSession) → UniqueIds rows → Sub rows rows
unfolding find
Sub-refl [] u = tt
Sub-refl (r ∷ rows) u = (ground arith, Sub-cons r rows rows u.0 (Sub-refl rows u.1))

-- A predicate on rows that a selection adds to those that hold of all.
All-select {ℓ} :
    (P : CashSession → Type ℓ) (p : CashSession → Bool) (rows : List CashSession)
    → All P rows
    → All (λ s. P s × (p s ≡ true)) (select p rows)
All-select P p [] h = tt
All-select P p (r ∷ rows) h = elim (Bool-cases (p r)) [
  | inl yes_it ↦ rw yes_it ((h.0, yes_it), All-select P p rows h.1)
  | inr no_it ↦ rw no_it (All-select P p rows h.1)
]

module _ {ℓ} (P : CashSession → Type ℓ) where
  All-first : (rows : List CashSession) {s : CashSession} → All P rows → first rows ≡ some s → P s
  All-first [] h e = cc
  All-first (r ∷ rows) {s} h e = let q : r ≡ s = cc in subst P q h.0

  All-only : (rows : List CashSession) {s : CashSession} → All P rows → only rows ≡ some s → P s
  unfolding only
  All-only [] h e = cc
  All-only (r ∷ []) {s} h e = let q : r ≡ s = cc in subst P q h.0
  All-only (r ∷ q ∷ rows) h e = cc

  latest-case :
      (r : CashSession) (rows : List CashSession) (s : CashSession)
      → latest (r ∷ rows) ≡ some s
      → (r ≡ s) ⊎ (latest rows ≡ some s)
  unfolding latest
  latest-case r rows s e = ground arith

  All-latest : (rows : List CashSession) {s : CashSession} → All P rows → latest rows ≡ some s → P s
  unfolding latest
  All-latest [] h e = cc
  All-latest (r ∷ rows) {s} h e = elim (latest-case r rows s e) [
    | inl here ↦ subst P here h.0
    | inr later ↦ All-latest rows h.1 later
  ]

-- What a query with a test returns is a stored row that passes the test.
abbrev pub IsPicked : (CashSession → Bool) → List CashSession → CashSession → Type 0
IsPicked p rows s = IsStored s rows × (p s ≡ true)

module _ (p : CashSession → Bool) (rows : List CashSession) (u : UniqueIds rows) where
  picked : All (IsPicked p rows) (select p rows)
  picked = All-select (λ s. IsStored s rows) p rows (Sub-refl rows u)

  pub latest-IsPicked : {s : CashSession} → latest (select p rows) ≡ some s → IsPicked p rows s
  latest-IsPicked e = All-latest (IsPicked p rows) (select p rows) picked e

  pub first-IsPicked : {s : CashSession} → first (select p rows) ≡ some s → IsPicked p rows s
  first-IsPicked e = All-first (IsPicked p rows) (select p rows) picked e

  pub only-IsPicked : {s : CashSession} → only (select p rows) ≡ some s → IsPicked p rows s
  only-IsPicked e = All-only (IsPicked p rows) (select p rows) picked e

-- `put` changes the row of that id alone.
pub All-ne :
    (P Q : CashSession → Type 0) (k : ℕ) (rows : List CashSession)
    → find k rows ≡ none
    → ((s : CashSession) → s.id ≢ k → P s → Q s)
    → All P rows
    → All Q rows
unfolding find
All-ne P Q k [] new keep h = tt
All-ne P Q k (s ∷ rows) new keep h =
    (keep s (ground arith) h.0, All-ne P Q k rows (ground arith) keep h.1)

pub All-put :
    (P Q : CashSession → Type 0) (r old : CashSession) (rows : List CashSession)
    → UniqueIds rows
    → find r.id rows ≡ some old
    → ((s : CashSession) → s.id ≢ r.id → P s → Q s)
    → (P old → Q r)
    → All P rows
    → All Q (put r rows)
unfolding find put
All-put P Q r old [] u found keep here h = cc
All-put P Q r old (s ∷ rows) u found keep here h = elim (Bool-cases (s.id == r.id)) [
  | inl same ↦
      let q : s ≡ old = ground arith in
      let new : find r.id rows ≡ none = rw (← (==_iff s.id r.id).0 same) u.0 in
      rw same (here (subst P q h.0), All-ne P Q r.id rows new keep h.1)
  | inr other ↦
      rw other (keep s (ground arith) h.0, All-put P Q r old rows u.1 (ground arith) keep here h.1)
]

pub find-put :
    (k : ℕ) (r : CashSession) (rows : List CashSession)
    → find k (put r rows) ≡ (if is_some (find k rows) && r.id == k then some r else find k rows)
unfolding find put
find-put k r [] = refl
find-put k r (s ∷ rows) = ground (arith, find-put k r rows)

pub put-UniqueIds :
    (r : CashSession) (rows : List CashSession) → UniqueIds rows → UniqueIds (put r rows)
unfolding find put
put-UniqueIds r [] u = tt
put-UniqueIds r (s ∷ rows) u = ground (arith, find-put s.id r rows, put-UniqueIds r rows u.1)

pub All-find :
    (P : CashSession → Type 0) (s : CashSession) (rows : List CashSession)
    → IsStored s rows
    → All P rows
    → P s
unfolding find
All-find P s [] stored h = cc
All-find P s (r ∷ rows) stored h = elim (Bool-cases (r.id == s.id)) [
  | inl same ↦ let q : r ≡ s = ground arith in subst P q h.0
  | inr other ↦ All-find P s rows (ground arith) h.1
]

-- ===== src/Transfers/Tracks.antt =====
-- What the changes of a request do to its stock rows (Transfers.Stock), for any property of a row that
-- the writes keep.
use aris_cloud.Prelude.{
  ℕ, ◌-◌, ◌∙◌, ap, refl, ◌≡◌, Bool, true, false, not, ◌&&◌, List, [], ◌∷◌, map, if◌then◌else◌,
  arith, All, select, length, none, ◌==◌, ltb,
}
use aris_cloud.Prelude.Result.{Ensures, Ensures-raise_if, AppError}
use aris_cloud.Transfers.{StockItem}
use aris_cloud.Transfers.Stock.{Tracked, begin, commit, matching, change_first, change_rows}

-- What a transfer leaves of a unit: all but where it lies.
abbrev pub essence : StockItem → StockItem
essence x = record x {
  store_id = none;
  location_code = none;
  pool = none;
  location_is_vendible = false;
}

module _ {κ} (base : List StockItem) (Q : Tracked → Type κ) where
  -- The rows are those that the request began with, and Q holds of each.
  abbrev pub Tracks : List Tracked → Type κ
  Tracks rows = (map (λ r. r.stored) rows ≡ base) × All Q rows

if-changed {κ} :
    (Q : Tracked → Type κ) (g : Tracked → Tracked) (b : Bool) (r : Tracked)
    → (b ≡ true → Q (g r))
    → Q r
    → Q (if b then g r else r)
if-changed Q g true r h q = h refl
if-changed Q g false r h q = q

change_first-stored :
    (g : Tracked → Tracked) (p : StockItem → Bool) (n : ℕ) (rows : List Tracked)
    → ((r : Tracked) → (g r).stored ≡ r.stored)
    → map (λ r. r.stored) (change_first g p n rows) ≡ map (λ r. r.stored) rows
unfolding change_first
change_first-stored g p n [] h = refl
change_first-stored g p n (r ∷ rows) h =
    let hit = p r.stored && ltb 0 n in
    let m = if hit then n - 1 else n in
    ap (λ x. x ∷ map (λ o. o.stored) (change_first g p m rows))
      (if-changed (λ o. o.stored ≡ r.stored) g hit r (λ _. h r) refl)
    ∙ ap (λ xs. r.stored ∷ xs) (change_first-stored g p m rows h)

change_first-All {κ} :
    (Q : Tracked → Type κ) (g : Tracked → Tracked) (p : StockItem → Bool) (n : ℕ)
    (rows : List Tracked)
    → ((r : Tracked) → p r.stored ≡ true → Q r → Q (g r))
    → All Q rows
    → All Q (change_first g p n rows)
unfolding change_first
change_first-All Q g p n [] h all = tt
change_first-All Q g p n (r ∷ rows) h all =
    let hit = p r.stored && ltb 0 n in
    (
      if-changed Q g hit r (λ e. h r (ground (arith, e)) all.0) all.0,
      change_first-All Q g p (if hit then n - 1 else n) rows h all.1,
    )

module _ {κ} (base : List StockItem) (Q : Tracked → Type κ) (g : Tracked → Tracked)
    (p : StockItem → Bool) (same : (r : Tracked) → (g r).stored ≡ r.stored)
    (kept : (r : Tracked) → p r.stored ≡ true → Q r → Q (g r)) where
  pub change_first-Tracks :
      (n : ℕ) (rows : List Tracked) → Tracks base Q rows → Tracks base Q (change_first g p n rows)
  change_first-Tracks n rows h =
      (change_first-stored g p n rows same ∙ h.0, change_first-All Q g p n rows kept h.1)

  pub change_rows-Tracks :
      (e : AppError) (n : ℕ) (rows : List Tracked)
      → Tracks base Q rows
      → Ensures (Tracks base Q) (change_rows g e p n rows)
  unfolding change_rows
  change_rows-Tracks e n rows h =
      Ensures-raise_if (Tracks base Q) (ltb (length (matching p rows)) n) e _
        λ _. change_first-Tracks n rows h

pub begin-Tracks {κ} :
    (Q : Tracked → Type κ) (stock : List StockItem)
    → ((x : StockItem) → Q (record { stored = x; live = x; deleted = false }))
    → Tracks stock Q (begin stock)
unfolding begin
begin-Tracks Q [] h = (refl, tt)
begin-Tracks Q (x ∷ stock) h =
    let rest = begin-Tracks Q stock h in (ap (λ xs. x ∷ xs) rest.0, (h x, rest.1))

-- The unit is still there, and moved at most.
abbrev pub IsKept : Tracked → Type 0
IsKept r = (essence r.live ≡ essence r.stored) × (r.deleted ≡ false)

-- A unit of another tenant is as it was.
abbrev pub IsLocal : ℕ → Tracked → Type 0
IsLocal tenant r =
    (r.live.tenant_id ≡ r.stored.tenant_id)
    × ((r.stored.tenant_id == tenant) ≡ false → (r.live ≡ r.stored) × (r.deleted ≡ false))

commit-kept :
    (rows : List Tracked)
    → All IsKept rows
    → map essence (commit rows) ≡ map essence (map (λ r. r.stored) rows)
unfolding commit
commit-kept [] h = refl
commit-kept (r ∷ rows) h = ground (arith, commit-kept rows h.1)

pub commit-IsKept :
    (stock : List StockItem) (rows : List Tracked)
    → Tracks stock IsKept rows
    → map essence (commit rows) ≡ map essence stock
commit-IsKept stock rows h = commit-kept rows h.1 ∙ ap (map essence) h.0

-- The units of the other tenants.
abbrev pub foreign : ℕ → List StockItem → List StockItem
foreign tenant = select (λ x. not (x.tenant_id == tenant))

commit-local :
    (tenant : ℕ) (rows : List Tracked)
    → All (IsLocal tenant) rows
    → foreign tenant (commit rows) ≡ foreign tenant (map (λ r. r.stored) rows)
unfolding commit
commit-local tenant [] h = refl
commit-local tenant (r ∷ rows) h = ground (arith, commit-local tenant rows h.1)

pub commit-IsLocal :
    (tenant : ℕ) (stock : List StockItem) (rows : List Tracked)
    → Tracks stock (IsLocal tenant) rows
    → foreign tenant (commit rows) ≡ foreign tenant stock
commit-IsLocal tenant stock rows h = commit-local tenant rows h.1 ∙ ap (foreign tenant) h.0

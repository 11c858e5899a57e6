-- ===== src/Cash/Exact.antt =====
-- The sums of a day's movements, where the database's SUM is exact: on whole amounts.
use aris_cloud.Prelude.{
  ℕ, zero, suc, ◌*◌, ◌≡◌, ◌∙◌, refl, sym, ap, List, [], ◌∷◌, All, map, arith, Bool-cases, inl, inr,
  if◌then◌else◌,
}
use aris_cloud.Prelude.Int.{ℤ, pos, ◌+ℤ◌, ◌-ℤ◌, ◌≤ℤ◌, int_laws}
use aris_cloud.Cash.Db.{MovementType, CashMovement}
use aris_cloud.Cash.DayClose.{
  Sums, is_action, movement_types, sum_group, group_amounts, Total, counts_as,
  normalize_movement_type, total_of, rollup_rows, in_unit,
}
use aris_cloud.Cash.Ledger.{signed, effect}

-- What rows of movements add up to.
abbrev pub effects : List CashMovement → ℤ
effects [] = pos 0
effects (m ∷ ms) = effect m +ℤ effects ms

abbrev pub exact_sum : List ℤ → ℤ
exact_sum [] = pos 0
exact_sum (x ∷ xs) = x +ℤ exact_sum xs

-- Whole units of money, which floats hold without loss.
abbrev pub IsWhole : ℤ → Type 0
IsWhole x = (k : ℕ) × (x ≡ pos (100 * k))

-- The cents of 2 ^ 53.
abbrev pub float_limit : ℤ
float_limit = pos 900719925474099200

-- A float addition of whole numbers is exact as long as the sum is at most 2 ^ 53 (IEEE 754), and the
-- text of such a float is the number.
abbrev pub IsExactOnWhole : Sums → Type 0
IsExactOnWhole sums =
    (xs : List ℤ)
    → All IsWhole xs
    → exact_sum xs ≤ℤ float_limit
    → sums.total xs ≡ in_unit sums.cent (exact_sum xs)

in_unit_zero : (k : ℕ) → in_unit k (pos 0) ≡ pos 0
unfolding in_unit
in_unit_zero zero = refl
in_unit_zero (suc k) = rw (in_unit_zero k) (omega int_laws)

in_unit-+ℤ : (k : ℕ) (a b : ℤ) → in_unit k (a +ℤ b) ≡ in_unit k a +ℤ in_unit k b
unfolding in_unit
in_unit-+ℤ zero a b = omega int_laws
in_unit-+ℤ (suc k) a b = rw (in_unit-+ℤ k a b) (omega int_laws)

in_unit--ℤ : (k : ℕ) (a b : ℤ) → in_unit k (a -ℤ b) ≡ in_unit k a -ℤ in_unit k b
unfolding in_unit
in_unit--ℤ zero a b = omega int_laws
in_unit--ℤ (suc k) a b = rw (in_unit--ℤ k a b) (omega int_laws)

abbrev pub amounts_of : List CashMovement → List ℤ
amounts_of ms = map (λ m. m.amount) ms

positive_amount : (x : ℤ) → IsWhole x → pos 0 ≤ℤ x
positive_amount x h = rw (h.1) (omega arith)

group-IsWhole :
    (a : MovementType) (ms : List CashMovement)
    → All IsWhole (amounts_of ms)
    → All IsWhole (group_amounts a ms)
group-IsWhole a [] h = tt
group-IsWhole a (m ∷ ms) h = elim (Bool-cases (is_action a m.action)) [
  | inl same ↦ rw same (h.0, group-IsWhole a ms h.1)
  | inr other ↦ rw other (group-IsWhole a ms h.1)
]

group_at_most :
    (a : MovementType) (ms : List CashMovement)
    → All IsWhole (amounts_of ms)
    → exact_sum (group_amounts a ms) ≤ℤ exact_sum (amounts_of ms)
group_at_most a [] h = omega arith
group_at_most a (m ∷ ms) h =
    let rest = group_at_most a ms h.1 in
    let positive = positive_amount m.amount h.0 in
    elim (Bool-cases (is_action a m.action)) [
      | inl same ↦ rw same (omega (int_laws, rest))
      | inr other ↦ rw other (omega (int_laws, rest, positive))
    ]

exact_group :
    (sums : Sums) (xs : List ℤ)
    → IsExactOnWhole sums
    → All IsWhole xs
    → exact_sum xs ≤ℤ float_limit
    → sum_group sums xs ≡ in_unit sums.cent (exact_sum xs)
exact_group sums [] exact whole small = sym (in_unit_zero sums.cent)
exact_group sums (x ∷ xs) exact whole small = exact (x ∷ xs) whole small

-- The exact sum of the group of an action.
unfoldable grouped : MovementType → List CashMovement → ℤ
grouped a ms = exact_sum (group_amounts a ms)

-- The exact total of the groups of a key.
unfoldable exact_total : Total → List CashMovement → List MovementType → ℤ
exact_total key ms [] = pos 0
exact_total key ms (a ∷ actions) =
    let rest = exact_total key ms actions in
    if counts_as key (normalize_movement_type a) then grouped a ms +ℤ rest else rest

module _ (sums : Sums) (exact : IsExactOnWhole sums) (ms : List CashMovement)
    (whole : All IsWhole (amounts_of ms)) (small : exact_sum (amounts_of ms) ≤ℤ float_limit) where
  group-exact :
      (a : MovementType) → sum_group sums (group_amounts a ms) ≡ in_unit sums.cent (grouped a ms)
  unfolding grouped
  group-exact a =
      let less = group_at_most a ms whole in
      exact_group sums (group_amounts a ms) exact (group-IsWhole a ms whole)
        (omega (int_laws, less, small))

  total_of-exact :
      (key : Total) (actions : List MovementType)
      → total_of sums key ms actions ≡ in_unit sums.cent (exact_total key ms actions)
  unfolding total_of exact_total
  total_of-exact key [] = sym (in_unit_zero sums.cent)
  total_of-exact key (a ∷ actions) = elim (Bool-cases (counts_as key (normalize_movement_type a))) [
    | inr no_key ↦ rw no_key (total_of-exact key actions)
    | inl its_key ↦ rw its_key (
        rw (group-exact a, total_of-exact key actions)
          (sym (in_unit-+ℤ sums.cent (grouped a ms) (exact_total key ms actions))))
  ]

abbrev exact_of : ℤ → ℤ → ℤ → ℤ → ℤ → ℤ
exact_of o i u s r = o +ℤ i -ℤ u +ℤ s -ℤ r

in_unit-exact_of :
    (k : ℕ) (o i u s r : ℤ)
    → exact_of (in_unit k o) (in_unit k i) (in_unit k u) (in_unit k s) (in_unit k r)
      ≡ in_unit k (exact_of o i u s r)
in_unit-exact_of k o i u s r =
    rw
      (
        in_unit--ℤ k (o +ℤ i -ℤ u +ℤ s) r,
        in_unit-+ℤ k (o +ℤ i -ℤ u) s,
        in_unit--ℤ k (o +ℤ i) u,
        in_unit-+ℤ k o i,
      )
      refl

abbrev exact_expected : List CashMovement → ℤ
exact_expected ms =
    exact_of (exact_total Total.opening ms movement_types)
      (exact_total Total.cash_in ms movement_types) (exact_total Total.cash_out ms movement_types)
      (exact_total Total.sale_cash_in ms movement_types)
      (exact_total Total.cash_out_refund ms movement_types)

abbrev pick : MovementType → MovementType → ℤ → ℤ → ℤ
pick a b x rest = if is_action a b then x +ℤ rest else rest

grouped_step :
    (a : MovementType) (m : CashMovement) (ms : List CashMovement)
    → grouped a (m ∷ ms) ≡ pick a m.action m.amount (grouped a ms)
unfolding grouped
grouped_step a m ms = elim (Bool-cases (is_action a m.action)) [
  | inl same ↦ rw same refl
  | inr other ↦ rw other refl
]

-- The groups by their actions.
abbrev by_groups : ℤ → ℤ → ℤ → ℤ → ℤ → ℤ → ℤ → ℤ
by_groups o p i u s z r =
    exact_of (o +ℤ (p +ℤ pos 0)) (i +ℤ pos 0) (u +ℤ pos 0) (s +ℤ (z +ℤ pos 0)) (r +ℤ pos 0)

exact_step :
    (b : MovementType) (x o p i u s z r : ℤ)
    → by_groups
        (pick MovementType.open_session b x o)
        (pick MovementType.opening b x p)
        (pick MovementType.cash_in b x i)
        (pick MovementType.cash_out b x u)
        (pick MovementType.sale b x s)
        (pick MovementType.sale_cash_in b x z)
        (pick MovementType.cash_out_refund b x r)
      ≡ signed b x +ℤ by_groups o p i u s z r
unfolding signed
exact_step MovementType.open_session x o p i u s z r = omega int_laws
exact_step _ x o p i u s z r = omega int_laws

abbrev groups_of : List CashMovement → ℤ
groups_of ms =
    by_groups (grouped MovementType.open_session ms) (grouped MovementType.opening ms)
      (grouped MovementType.cash_in ms) (grouped MovementType.cash_out ms)
      (grouped MovementType.sale ms) (grouped MovementType.sale_cash_in ms)
      (grouped MovementType.cash_out_refund ms)

groups_of-step :
    (m : CashMovement) (ms : List CashMovement)
    → groups_of (m ∷ ms)
      ≡ by_groups
          (pick MovementType.open_session m.action m.amount (grouped MovementType.open_session ms))
          (pick MovementType.opening m.action m.amount (grouped MovementType.opening ms))
          (pick MovementType.cash_in m.action m.amount (grouped MovementType.cash_in ms))
          (pick MovementType.cash_out m.action m.amount (grouped MovementType.cash_out ms))
          (pick MovementType.sale m.action m.amount (grouped MovementType.sale ms))
          (pick MovementType.sale_cash_in m.action m.amount (grouped MovementType.sale_cash_in ms))
          (pick MovementType.cash_out_refund m.action m.amount
            (grouped MovementType.cash_out_refund ms))
groups_of-step m ms =
    rw
      (
        grouped_step MovementType.open_session m ms,
        grouped_step MovementType.opening m ms,
        grouped_step MovementType.cash_in m ms,
        grouped_step MovementType.cash_out m ms,
        grouped_step MovementType.sale m ms,
        grouped_step MovementType.sale_cash_in m ms,
        grouped_step MovementType.cash_out_refund m ms,
      )
      refl

groups_of-effects : (ms : List CashMovement) → groups_of ms ≡ effects ms
unfolding grouped
groups_of-effects [] = omega int_laws
groups_of-effects (m ∷ ms) =
    groups_of-step m ms
    ∙ exact_step m.action m.amount (grouped MovementType.open_session ms)
        (grouped MovementType.opening ms) (grouped MovementType.cash_in ms)
        (grouped MovementType.cash_out ms) (grouped MovementType.sale ms)
        (grouped MovementType.sale_cash_in ms) (grouped MovementType.cash_out_refund ms)
    ∙ ap (λ z. effect m +ℤ z) (groups_of-effects ms)

-- A total of whole amounts that are not too many is what the movements add up to.
pub rollup_rows-expected :
    (sums : Sums) (ms : List CashMovement)
    → IsExactOnWhole sums
    → All IsWhole (amounts_of ms)
    → exact_sum (amounts_of ms) ≤ℤ float_limit
    → (rollup_rows sums ms).expected_cash ≡ in_unit sums.cent (effects ms)
unfolding rollup_rows exact_total
rollup_rows-expected sums ms exact whole small =
    let total = λ (key : Total). total_of-exact sums exact ms whole small key movement_types in
    rw
      (
        total Total.opening,
        total Total.cash_in,
        total Total.cash_out,
        total Total.sale_cash_in,
        total Total.cash_out_refund,
      )
      (in_unit-exact_of sums.cent (exact_total Total.opening ms movement_types)
          (exact_total Total.cash_in ms movement_types)
          (exact_total Total.cash_out ms movement_types)
          (exact_total Total.sale_cash_in ms movement_types)
          (exact_total Total.cash_out_refund ms movement_types)
        ∙ ap (in_unit sums.cent) (groups_of-effects ms))

-- ===== src/Usecase/Unwinding.antt =====
-- usecase/saga.go: the order in which a saga is rolled back, over all its steps.
use antflow_server.Base.{
  ℕ, ◌≤◌, Bool, true, false, ◌≡◌, refl, ap, sym, ◌∙◌, Option, none, some, List, [], ◌∷◌, String,
  select, find, exists, Bool-cases, inl, inr, arith,
}
use antflow_server.Domain.{WorkflowDefinitionStep, TaskOutput}
use antflow_server.Store.Steps.{compensation_steps, int_pred}
use antflow_server.Store.Rollback.{
  AllBelow, IsDescending, at_index, below, compensation_steps-below,
}
use antflow_server.Store.Rollback.Apart.{
  AreApart, HasUniqueSteps, steps-IsDescending, steps-AreApart, steps-AllBelow,
}
use antflow_server.Usecase.Saga.{has_output}

abbrev pub head : List WorkflowDefinitionStep → Option WorkflowDefinitionStep
head [] = none
head (x ∷ xs) = some x

-- From each step of the list, `next` leads to the one behind it, and from the last one to none.
abbrev pub Unwinds : (ℕ → Option WorkflowDefinitionStep) → List WorkflowDefinitionStep → Type 0
Unwinds next [] = Unit {0}
Unwinds next (x ∷ xs) = (next x.step_index ≡ head xs) × Unwinds next xs

-- All rows below the first: what is left of a list from there on.
tail-below :
    (n : ℕ) (xs : List WorkflowDefinitionStep)
    → AllBelow n xs
    → exists (at_index n) xs ≡ false
    → select (below n) xs ≡ xs
tail-below n [] h k = refl
tail-below n (x ∷ xs) h k =
    let e : below n x ≡ true = (let l = h.0 in ground arith) in
    rw e (ap (λ ys. x ∷ ys) (tail-below n xs h.1 (ground arith)))

find-select :
    (h : WorkflowDefinitionStep → Bool) (xs : List WorkflowDefinitionStep)
    → find h xs ≡ head (select h xs)
find-select h [] = refl
find-select h (x ∷ xs) = elim (Bool-cases (h x)) [
  | inl e ↦ rw e refl
  | inr e ↦ rw e (find-select h xs)
]

module _ (h : WorkflowDefinitionStep → Bool) where
  abbrev next_in : List WorkflowDefinitionStep → ℕ → Option WorkflowDefinitionStep
  next_in xs n = find h (select (below n) xs)

  Unwinds-cons :
      (y : WorkflowDefinitionStep) (xs ys : List WorkflowDefinitionStep)
      → AllBelow y.step_index ys
      → Unwinds (next_in xs) ys
      → Unwinds (next_in (y ∷ xs)) ys
  Unwinds-cons y xs [] b u = tt
  Unwinds-cons y xs (z ∷ ys) b u =
      let e : below z.step_index y ≡ false = (let l = b.0 in ground arith) in
      (rw e u.0, Unwinds-cons y xs ys b.1 u.1)

  select-AllBelow' :
      (n : ℕ) (xs : List WorkflowDefinitionStep) → AllBelow n xs → AllBelow n (select h xs)
  select-AllBelow' n [] b = tt
  select-AllBelow' n (x ∷ xs) b = elim (Bool-cases (h x)) [
    | inl e ↦ rw e (b.0, select-AllBelow' n xs b.1)
    | inr e ↦ rw e (select-AllBelow' n xs b.1)
  ]

  ordered-Unwinds :
      (xs : List WorkflowDefinitionStep)
      → IsDescending xs
      → AreApart xs
      → Unwinds (next_in xs) (select h xs)
  ordered-Unwinds [] d a = tt
  ordered-Unwinds (x ∷ xs) d a =
      let rest =
        Unwinds-cons x xs (select h xs) (select-AllBelow' x.step_index xs d.0)
          (ordered-Unwinds xs d.1 a.1) in
      let e : below x.step_index x ≡ false = ground arith in
      elim (Bool-cases (h x)) [
        | inl m ↦ rw m (rw e (rw (tail-below x.step_index xs d.0 a.0) (find-select h xs)), rest)
        | inr m ↦ rw m rest
      ]

  select-IsDescending :
      (xs : List WorkflowDefinitionStep) → IsDescending xs → IsDescending (select h xs)
  select-IsDescending [] d = tt
  select-IsDescending (x ∷ xs) d = elim (Bool-cases (h x)) [
    | inl e ↦ rw e (select-AllBelow' x.step_index xs d.0, select-IsDescending xs d.1)
    | inr e ↦ rw e (select-IsDescending xs d.1)
  ]

Unwinds-along :
    (f g : ℕ → Option WorkflowDefinitionStep) (m : ℕ) (xs : List WorkflowDefinitionStep)
    → ((n : ℕ) → n ≤ m → f n ≡ g n)
    → AllBelow m xs
    → Unwinds f xs
    → Unwinds g xs
Unwinds-along f g m [] e b u = tt
Unwinds-along f g m (x ∷ xs) e b u =
    (sym (e x.step_index b.0) ∙ u.0, Unwinds-along f g m xs e b.1 u.1)

-- The steps that startCompensation counts: before the failed step, with a handler and an output. In
-- their order, the query that follows a finished compensation leads from each to the one behind it.
pub active-Unwinds :
    (outputs : List TaskOutput) (def : String) (failed_at : ℕ) (rows : List WorkflowDefinitionStep)
    → HasUniqueSteps def rows
    → let active = select (has_output outputs) (compensation_steps def (int_pred failed_at) rows) in
      IsDescending active
      × Unwinds (λ n. find (has_output outputs) (compensation_steps def (int_pred n) rows)) active
active-Unwinds outputs def failed_at rows u =
    let h = has_output outputs in
    let steps = compensation_steps def (int_pred failed_at) rows in
    let d = steps-IsDescending def (int_pred failed_at) rows in
    (
      select-IsDescending h steps d,
      Unwinds-along (next_in h steps) (λ n. find h (compensation_steps def (int_pred n) rows))
          failed_at (select h steps)
          (λ n k. ap (find h) (compensation_steps-below def n failed_at rows k))
          (select-AllBelow' h failed_at steps (steps-AllBelow def failed_at rows))
          (ordered-Unwinds h steps d (steps-AreApart def (int_pred failed_at) rows u)),
    )

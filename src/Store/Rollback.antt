-- ===== src/Store/Rollback.antt =====
-- infrastructure/persistence/workflow_definition_step.go: GetCompensationSteps, which each step of a
-- rollback asks again.
pub mod Apart
use antflow_server.Base.{
  ℕ, zero, suc, ◌≤◌, Bool, true, false, ◌&&◌, ◌≡◌, refl, ap, ◌∙◌, Option, List, [], ◌∷◌, String,
  ◌==◌, leb, leb→le, ltb, select, exists, Bool-cases, inl, inr, arith, if◌then◌else◌,
}
use antflow_server.Domain.{WorkflowDefinitionStep}
use antflow_server.Store.Steps.{
  compensation_steps, by_index_desc, insert_step_desc, is_compensated, int_pred, of_definition,
}

-- The steps in the order of a rollback: from the last to the first.
abbrev pub AllBelow : ℕ → List WorkflowDefinitionStep → Type 0
AllBelow n [] = Unit {0}
AllBelow n (x ∷ xs) = (x.step_index ≤ n) × AllBelow n xs

abbrev pub IsDescending : List WorkflowDefinitionStep → Type 0
IsDescending [] = Unit {0}
IsDescending (x ∷ xs) = AllBelow x.step_index xs × IsDescending xs

AllBelow-weaken :
    (m n : ℕ) (xs : List WorkflowDefinitionStep) → m ≤ n → AllBelow m xs → AllBelow n xs
AllBelow-weaken m n [] h k = tt
AllBelow-weaken m n (x ∷ xs) h k = (omega (arith, k.0), AllBelow-weaken m n xs h k.1)

pub insert-AllBelow :
    (n : ℕ) (x : WorkflowDefinitionStep) (xs : List WorkflowDefinitionStep)
    → x.step_index ≤ n
    → AllBelow n xs
    → AllBelow n (insert_step_desc x xs)
unfolding insert_step_desc
insert-AllBelow n x [] h k = (h, tt)
insert-AllBelow n x (y ∷ ys) h k = elim (Bool-cases (leb y.step_index x.step_index)) [
  | inl e ↦ rw e (h, (k.0, k.1))
  | inr e ↦ rw e (k.0, insert-AllBelow n x ys h k.1)
]

insert-IsDescending :
    (x : WorkflowDefinitionStep) (xs : List WorkflowDefinitionStep)
    → IsDescending xs
    → IsDescending (insert_step_desc x xs)
unfolding insert_step_desc
insert-IsDescending x [] h = (tt, tt)
insert-IsDescending x (y ∷ ys) h = elim (Bool-cases (leb y.step_index x.step_index)) [
  | inl e ↦
      rw e ((leb→le _ _ e, AllBelow-weaken y.step_index x.step_index ys (leb→le _ _ e) h.0), h)
  | inr e ↦
      rw e (insert-AllBelow y.step_index x ys (ground arith) h.0, insert-IsDescending x ys h.1)
]

pub by_index_desc-IsDescending :
    (xs : List WorkflowDefinitionStep) → IsDescending (by_index_desc xs)
unfolding by_index_desc
by_index_desc-IsDescending [] = tt
by_index_desc-IsDescending (x ∷ xs) = insert-IsDescending x _ (by_index_desc-IsDescending xs)

-- A selection of rows that are all before `x` in the order.
select-AllBelow :
    (p : WorkflowDefinitionStep → Bool) (n : ℕ) (xs : List WorkflowDefinitionStep)
    → AllBelow n xs
    → AllBelow n (select p xs)
select-AllBelow p n [] h = tt
select-AllBelow p n (x ∷ xs) h = elim (Bool-cases (p x)) [
  | inl e ↦ rw e (h.0, select-AllBelow p n xs h.1)
  | inr e ↦ rw e (select-AllBelow p n xs h.1)
]

insert-AtFront :
    (x : WorkflowDefinitionStep) (xs : List WorkflowDefinitionStep)
    → AllBelow x.step_index xs
    → insert_step_desc x xs ≡ x ∷ xs
unfolding insert_step_desc
insert-AtFront x [] h = refl
insert-AtFront x (y ∷ ys) h =
    (let e : leb y.step_index x.step_index ≡ true = le→leb _ _ h.0 in rw e refl)
  where
    le→leb : (a b : ℕ) → a ≤ b → leb a b ≡ true
    le→leb a b h = ground arith

select-insert :
    (p : WorkflowDefinitionStep → Bool) (x : WorkflowDefinitionStep)
    (xs : List WorkflowDefinitionStep)
    → IsDescending xs
    → select p (insert_step_desc x xs)
      ≡ (if p x then insert_step_desc x (select p xs) else select p xs)
unfolding insert_step_desc
select-insert p x [] h = refl
select-insert p x (y ∷ ys) h = elim (Bool-cases (leb y.step_index x.step_index)) [
  | inl e ↦
      let k = leb→le _ _ e in
      let all : AllBelow x.step_index (y ∷ ys) =
        (k, AllBelow-weaken y.step_index x.step_index ys k h.0) in
      rw e (rw (insert-AtFront x (select p (y ∷ ys)) (select-AllBelow p _ (y ∷ ys) all)) refl)
  | inr e ↦ elim (Bool-cases (p y)) [
    | inl m ↦ rw e (
        rw m (
          rw e (
            rw (select-insert p x ys h.1)
              (elim (Bool-cases (p x)) [ inl n ↦ rw n refl | inr n ↦ rw n refl ]))))
    | inr m ↦ rw e (rw m (select-insert p x ys h.1))
  ]
]

-- Sorting and selecting commute.
select-by_index_desc :
    (p : WorkflowDefinitionStep → Bool) (xs : List WorkflowDefinitionStep)
    → select p (by_index_desc xs) ≡ by_index_desc (select p xs)
unfolding by_index_desc
select-by_index_desc p [] = refl
select-by_index_desc p (x ∷ xs) =
    rw (select-insert p x (by_index_desc xs) (by_index_desc-IsDescending xs)) (
      rw (select-by_index_desc p xs)
        (elim (Bool-cases (p x)) [ inl e ↦ rw e refl | inr e ↦ rw e refl ]))

select-select :
    (p q r : WorkflowDefinitionStep → Bool)
    → ((x : WorkflowDefinitionStep) → r x ≡ (q x && p x))
    → (xs : List WorkflowDefinitionStep) → select p (select q xs) ≡ select r xs
select-select p q r h [] = refl
select-select p q r h (x ∷ xs) = ground (arith, h x, select-select p q r h xs)

abbrev pub below : ℕ → WorkflowDefinitionStep → Bool
below n x = ltb x.step_index n

-- An earlier bound selects from the steps of a later one.
pub compensation_steps-below :
    (def : String) (i n : ℕ) (rows : List WorkflowDefinitionStep)
    → i ≤ n
    → select (below i) (compensation_steps def (int_pred n) rows)
      ≡ compensation_steps def (int_pred i) rows
unfolding compensation_steps
compensation_steps-below def i n rows h =
    select-by_index_desc (below i) (select (is_compensated def (int_pred n)) rows)
    ∙ ap by_index_desc (
        select-select (below i) (is_compensated def (int_pred n)) (is_compensated def (int_pred i))
          (λ x. both def i n x h) rows)
  where
    both :
        (def : String) (i n : ℕ) (x : WorkflowDefinitionStep)
        → i ≤ n
        → is_compensated def (int_pred i) x ≡ (is_compensated def (int_pred n) x && below i x)
    both def zero n x h = ground arith
    both def (suc i) zero x h = absurd (omega arith)
    both def (suc i) (suc n) x h = ground arith

abbrev pub at_index : ℕ → WorkflowDefinitionStep → Bool
at_index n x = x.step_index == n

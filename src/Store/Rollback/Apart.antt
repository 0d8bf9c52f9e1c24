-- ===== src/Store/Rollback/Apart.antt =====
-- infrastructure/persistence/workflow_definition_step.go: the steps of a rollback are apart.
use antflow_server.Base.{
  ltb, not, find, find-exists_other, some, ◌<◌, ℕ, zero, suc, ◌≤◌, Bool, true, false, ◌&&◌, ◌≡◌,
  refl, ◌∙◌, Option, List, [], ◌∷◌, String, ◌==◌, leb, select, exists, Bool-cases, inl, inr, arith,
}
use antflow_server.Domain.{WorkflowDefinitionStep}
use antflow_server.Store.Steps.{
  compensation_steps, by_index_desc, insert_step_desc, is_compensated, int_pred, of_definition,
}
use antflow_server.Store.Rollback.{
  AllBelow, IsDescending, at_index, by_index_desc-IsDescending, insert-AllBelow,
}

-- No two rows have one index.
abbrev pub AreApart : List WorkflowDefinitionStep → Type 0
AreApart [] = Unit {0}
AreApart (x ∷ xs) = (exists (at_index x.step_index) xs ≡ false) × AreApart xs

exists-insert :
    (p : WorkflowDefinitionStep → Bool) (x : WorkflowDefinitionStep)
    (xs : List WorkflowDefinitionStep)
    → exists p (insert_step_desc x xs) ≡ exists p (x ∷ xs)
unfolding insert_step_desc
exists-insert p x [] = refl
exists-insert p x (y ∷ ys) = ground (arith, exists-insert p x ys)

exists-by_index_desc :
    (p : WorkflowDefinitionStep → Bool) (xs : List WorkflowDefinitionStep)
    → exists p (by_index_desc xs) ≡ exists p xs
unfolding by_index_desc
exists-by_index_desc p [] = refl
exists-by_index_desc p (x ∷ xs) =
    rw (exists-insert p x (by_index_desc xs)) (rw (exists-by_index_desc p xs) refl)

insert-AreApart :
    (x : WorkflowDefinitionStep) (xs : List WorkflowDefinitionStep)
    → exists (at_index x.step_index) xs ≡ false
    → AreApart xs
    → AreApart (insert_step_desc x xs)
unfolding insert_step_desc
insert-AreApart x [] h k = (refl, tt)
insert-AreApart x (y ∷ ys) h k = elim (Bool-cases (leb y.step_index x.step_index)) [
  | inl e ↦ rw e (h, k)
  | inr e ↦ rw e (
    (let a = exists-insert (at_index y.step_index) x ys in let b = k.0 in ground arith),
    insert-AreApart x ys (ground arith) k.1,
  )
]

pub by_index_desc-AreApart :
    (xs : List WorkflowDefinitionStep) → AreApart xs → AreApart (by_index_desc xs)
unfolding by_index_desc
by_index_desc-AreApart [] h = tt
by_index_desc-AreApart (x ∷ xs) h =
    insert-AreApart x (by_index_desc xs) (exists-by_index_desc (at_index x.step_index) xs ∙ h.0)
      (by_index_desc-AreApart xs h.1)

-- UNIQUE (workflow_definition_id, step_index), for one definition.
abbrev pub HasUniqueSteps : String → List WorkflowDefinitionStep → Type 0
HasUniqueSteps def [] = Unit {0}
HasUniqueSteps def (x ∷ xs) =
    (of_definition def x ≡ true
      → exists (λ r. of_definition def r && r.step_index == x.step_index) xs ≡ false)
    × HasUniqueSteps def xs

pub selected-AreApart :
    (def : String) (up : Option ℕ) (xs : List WorkflowDefinitionStep)
    → HasUniqueSteps def xs
    → AreApart (select (is_compensated def up) xs)
selected-AreApart def up [] h = tt
selected-AreApart def up (x ∷ xs) h = elim (Bool-cases (is_compensated def up x)) [
  | inl e ↦
      rw e (fewer x.step_index def up xs (h.0 (ground arith)), selected-AreApart def up xs h.1)
  | inr e ↦ rw e (selected-AreApart def up xs h.1)
]
  where
    fewer :
        (n : ℕ) (def : String) (up : Option ℕ) (xs : List WorkflowDefinitionStep)
        → exists (λ r. of_definition def r && r.step_index == n) xs ≡ false
        → exists (at_index n) (select (is_compensated def up) xs) ≡ false
    fewer n def up [] h = refl
    fewer n def up (x ∷ xs) h = ground (arith, fewer n def up xs)

pub steps-IsDescending :
    (def : String) (up : Option ℕ) (rows : List WorkflowDefinitionStep)
    → IsDescending (compensation_steps def up rows)
unfolding compensation_steps
steps-IsDescending def up rows = by_index_desc-IsDescending (select (is_compensated def up) rows)

pub steps-AreApart :
    (def : String) (up : Option ℕ) (rows : List WorkflowDefinitionStep)
    → HasUniqueSteps def rows
    → AreApart (compensation_steps def up rows)
unfolding compensation_steps
steps-AreApart def up rows h =
    by_index_desc-AreApart (select (is_compensated def up) rows) (selected-AreApart def up rows h)

by_index_desc-AllBelow :
    (n : ℕ) (xs : List WorkflowDefinitionStep) → AllBelow n xs → AllBelow n (by_index_desc xs)
unfolding by_index_desc
by_index_desc-AllBelow n [] h = tt
by_index_desc-AllBelow n (x ∷ xs) h =
    insert-AllBelow n x (by_index_desc xs) h.0 (by_index_desc-AllBelow n xs h.1)

pub steps-AllBelow :
    (def : String) (n : ℕ) (rows : List WorkflowDefinitionStep)
    → AllBelow n (compensation_steps def (int_pred n) rows)
unfolding compensation_steps
steps-AllBelow def n rows =
    by_index_desc-AllBelow n (select (is_compensated def (int_pred n)) rows) (selected def n rows)
  where
    in_bound :
        (def : String) (n : ℕ) (x : WorkflowDefinitionStep)
        → is_compensated def (int_pred n) x ≡ true
        → x.step_index ≤ n
    in_bound def zero x h = absurd (ground arith)
    in_bound def (suc n) x h = ground arith

    selected :
        (def : String) (n : ℕ) (xs : List WorkflowDefinitionStep)
        → AllBelow n (select (is_compensated def (int_pred n)) xs)
    selected def n [] = tt
    selected def n (x ∷ xs) = elim (Bool-cases (is_compensated def (int_pred n) x)) [
      | inl e ↦ rw e (in_bound def n x e, selected def n xs)
      | inr e ↦ rw e (selected def n xs)
    ]

-- A step that the query for the steps before `n` finds is before `n`.
is_before :
    (def : String) (n : ℕ) (x : WorkflowDefinitionStep)
    → is_compensated def (int_pred n) x ≡ true
    → ltb x.step_index n ≡ true
is_before def zero x h = absurd (ground arith)
is_before def (suc n) x h = ground arith

none_later :
    (def : String) (n : ℕ) (rows : List WorkflowDefinitionStep)
    → exists (λ x. not (ltb x.step_index n)) (select (is_compensated def (int_pred n)) rows) ≡ false
none_later def n [] = refl
none_later def n (x ∷ xs) = elim (Bool-cases (is_compensated def (int_pred n) x)) [
  | inl e ↦ rw e (rw (is_before def n x e) (none_later def n xs))
  | inr e ↦ rw e (none_later def n xs)
]

pub found-before :
    (h : WorkflowDefinitionStep → Bool) (def : String) (n : ℕ) (rows : List WorkflowDefinitionStep)
    {x : WorkflowDefinitionStep}
    → find h (compensation_steps def (int_pred n) rows) ≡ some x
    → x.step_index < n
unfolding compensation_steps
found-before h def n rows {x = x} f =
    let later : WorkflowDefinitionStep → Bool = λ y. not (ltb y.step_index n) in
    elim (Bool-cases (ltb x.step_index n)) [
      | inl e ↦ ground arith
      | inr e ↦ absurd (
          let k = find-exists_other h later _ f (rw e refl) in
          let m =
            exists-by_index_desc later (select (is_compensated def (int_pred n)) rows)
            ∙ none_later def n rows in
          cc)
    ]

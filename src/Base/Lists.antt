-- ===== src/Base/Lists.antt =====
-- Lists as tables: rows chosen by a Boolean test, as the WHERE clause of a statement chooses them.
use Prim.Native.Nat.{ℕ, suc, ◌+◌}
use mathlib.Core.Path.{◌≡◌, refl, ap, ◌∙◌}
use mathlib.Core.Logic.{inl, inr}
use mathlib.Core.Bool.{Bool, true, false, ◌||◌}
use mathlib.Core.Option.{Option, none, some}
use mathlib.Core.Option
use mathlib.Core.List.{List, [], ◌∷◌, ◌++◌}
use native.Mathlib.Omega.{arith}
use antflow_server.Base.Tests.{if◌then◌else◌, Bool-cases}

module _ {ℓ} {A : Type ℓ} where
  abbrev pub length : List A → ℕ
  length [] = 0
  length (x ∷ xs) = suc (length xs)

  -- SELECT ... WHERE
  abbrev pub select : (A → Bool) → List A → List A
  select p [] = []
  select p (x ∷ xs) = let rest = select p xs in if p x then x ∷ rest else rest

  -- the first row that passes
  abbrev pub find : (A → Bool) → List A → Option A
  find p [] = none
  find p (x ∷ xs) = if p x then some x else find p xs

  -- UPDATE ... WHERE
  abbrev pub update : (A → Bool) → (A → A) → List A → List A
  update p f [] = []
  update p f (x ∷ xs) = (if p x then f x else x) ∷ update p f xs

  -- DELETE ... WHERE
  abbrev pub delete : (A → Bool) → List A → List A
  delete p [] = []
  delete p (x ∷ xs) = let rest = delete p xs in if p x then rest else x ∷ rest

  abbrev pub exists : (A → Bool) → List A → Bool
  exists p [] = false
  exists p (x ∷ xs) = p x || exists p xs

module _ {ℓ} {A : Type ℓ} where
  pub length-append : (xs ys : List A) → length (xs ++ ys) ≡ length xs + length ys
  length-append [] ys = omega arith
  length-append (x ∷ xs) ys = omega (arith, length-append xs ys)

  -- An update that does not touch what the test reads is seen by the search.
  pub find-update :
      (p : A → Bool) (f : A → A) (xs : List A)
      → ((x : A) → p (f x) ≡ p x)
      → find p (update p f xs) ≡ Option.map f (find p xs)
  find-update p f [] h = refl
  find-update p f (x ∷ xs) h = ground (arith, h x, find-update p f xs h)

  pub update-no_hit :
      (p : A → Bool) (f : A → A) (xs : List A) → exists p xs ≡ false → update p f xs ≡ xs
  update-no_hit p f [] h = refl
  update-no_hit p f (x ∷ xs) h = ground (arith, update-no_hit p f xs)

  -- If an update takes its row out of the rows that it looks for, none of them is left.
  pub exists-update :
      (p : A → Bool) (f : A → A) (xs : List A)
      → ((x : A) → p x ≡ true → p (f x) ≡ false)
      → exists p (update p f xs) ≡ false
  exists-update p f [] h = refl
  exists-update p f (x ∷ xs) h = ground (arith, h x, exists-update p f xs h)

  pub select-append :
      (p : A → Bool) (xs ys : List A) → select p (xs ++ ys) ≡ select p xs ++ select p ys
  select-append p [] ys = refl
  select-append p (x ∷ xs) ys = ground (arith, select-append p xs ys)

  pub find-passes : (p : A → Bool) (xs : List A) {x : A} → find p xs ≡ some x → p x ≡ true
  find-passes p [] h = absurd cc
  find-passes p (y ∷ xs) {x = x} h = elim (Bool-cases (p y)) [
    | inl e ↦ (let q = rw e at h in let r : y ≡ x = cc in rw (← r) e)
    | inr e ↦ find-passes p xs (rw e at h)
  ]

  -- A row that comes behind rows of which none passes is the first that passes.
  pub find-new :
      (p : A → Bool) (xs : List A) (y : A)
      → exists p xs ≡ false
      → p y ≡ true
      → find p (xs ++ y ∷ []) ≡ some y
  find-new p [] y h e = rw e refl
  find-new p (x ∷ xs) y h e = ground (arith, find-new p xs y)

  pub append_nil : (xs : List A) → xs ++ [] ≡ xs
  append_nil [] = refl
  append_nil (x ∷ xs) = ap (λ ys. x ∷ ys) (append_nil xs)

  pub append_assoc : (xs ys zs : List A) → (xs ++ ys) ++ zs ≡ xs ++ (ys ++ zs)
  append_assoc [] ys zs = refl
  append_assoc (x ∷ xs) ys zs = ap (λ l. x ∷ l) (append_assoc xs ys zs)

  -- What an update does to the first row that passes a test which it does not change.
  pub find-updated :
      (p q : A → Bool) (f : A → A) (xs : List A) {x : A}
      → ((z : A) → p (f z) ≡ p z)
      → find p xs ≡ some x
      → find p (update q f xs) ≡ some (if q x then f x else x)
  find-updated p q f [] k h = absurd cc
  find-updated p q f (y ∷ xs) {x = x} k h = elim (Bool-cases (p y)) [
    | inl e ↦
        let z = rw e at h in
        let r : y ≡ x = cc in
        rw (← r)
          (elim (Bool-cases (q y)) [ inl m ↦ rw m (rw (k y ∙ e) refl) | inr m ↦ rw m (rw e refl) ])
    | inr e ↦
        let i = find-updated p q f xs k (rw e at h) in
        elim (Bool-cases (q y)) [ inl m ↦ rw m (rw (k y ∙ e) i) | inr m ↦ rw m (rw e i) ]
  ]

  pub find-exists : (p : A → Bool) (xs : List A) {x : A} → find p xs ≡ some x → exists p xs ≡ true
  find-exists p [] h = absurd cc
  find-exists p (y ∷ xs) h = elim (Bool-cases (p y)) [
    | inl e ↦ rw e refl
    | inr e ↦ rw e (find-exists p xs (rw e at h))
  ]

  pub select-update :
      (p q : A → Bool) (f : A → A) (xs : List A)
      → ((z : A) → p (f z) ≡ p z)
      → select p (update q f xs) ≡ update q f (select p xs)
  select-update p q f [] k = refl
  select-update p q f (x ∷ xs) k = ground (arith, k x, select-update p q f xs k)

  pub select-delete :
      (p q : A → Bool) (xs : List A) → select p (delete q xs) ≡ delete q (select p xs)
  select-delete p q [] = refl
  select-delete p q (x ∷ xs) = ground (arith, select-delete p q xs)

  pub find-exists_other :
      (p q : A → Bool) (xs : List A) {x : A} → find p xs ≡ some x → q x ≡ true → exists q xs ≡ true
  find-exists_other p q [] h k = absurd cc
  find-exists_other p q (y ∷ xs) {x = x} h k = elim (Bool-cases (p y)) [
    | inl e ↦ (let z = rw e at h in let r : y ≡ x = cc in rw r (rw k refl))
    | inr e ↦ (let i = find-exists_other p q xs (rw e at h) k in ground arith)
  ]

  -- A row stays, where none that passes is deleted.
  pub find-spared :
      (p q : A → Bool)
      → ((x : A) → p x ≡ true → q x ≡ false)
      → (xs : List A) → find p (delete q xs) ≡ find p xs
  find-spared p q h [] = refl
  find-spared p q h (x ∷ xs) = ground (arith, h x, find-spared p q h xs)

  -- A test that only rows of a selection pass.
  pub exists-select :
      (p q : A → Bool)
      → ((x : A) → q x ≡ true → p x ≡ true)
      → (xs : List A) → exists q (select p xs) ≡ exists q xs
  exists-select p q h [] = refl
  exists-select p q h (x ∷ xs) = ground (arith, h x, exists-select p q h xs)

  pub find-select : (p : A → Bool) (xs : List A) → find p xs ≡ find p (select p xs)
  find-select p [] = refl
  find-select p (x ∷ xs) = ground (arith, find-select p xs)

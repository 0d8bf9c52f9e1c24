-- ===== src/Base/Distinct.antt =====
-- Tables in which no two rows agree on a key.
use mathlib.Core.Path.{◌≡◌, refl, ◌∙◌}
use mathlib.Core.Logic.{inl, inr}
use mathlib.Core.Bool.{Bool, false}
use mathlib.Core.List.{List, [], ◌∷◌, ◌++◌}
use native.Mathlib.Omega.{arith}
use antflow_server.Base.Tests.{if◌then◌else◌, Bool-cases}
use antflow_server.Base.Lists.{exists, update, delete}

module _ {A : Type 0} where
  pub exists-snoc :
      (p : A → Bool) (xs : List A) (x : A)
      → exists p xs ≡ false
      → p x ≡ false
      → exists p (xs ++ x ∷ []) ≡ false
  exists-snoc p [] x h e = rw e refl
  exists-snoc p (y ∷ xs) x h e = ground (arith, exists-snoc p xs x)

  pub exists-update_same :
      (p q : A → Bool) (f : A → A) (xs : List A)
      → ((x : A) → q (f x) ≡ q x)
      → exists q (update p f xs) ≡ exists q xs
  exists-update_same p q f [] h = refl
  exists-update_same p q f (x ∷ xs) h = ground (arith, h x, exists-update_same p q f xs h)

  pub exists-delete :
      (p q : A → Bool) (xs : List A) → exists q xs ≡ false → exists q (delete p xs) ≡ false
  exists-delete p q [] h = refl
  exists-delete p q (x ∷ xs) h = ground (arith, exists-delete p q xs)

module _ {A : Type 0} (same : A → A → Bool) where
  -- No two rows agree on a key.
  abbrev pub AreDistinct : List A → Type 0
  AreDistinct [] = Unit {0}
  AreDistinct (x ∷ xs) = (exists (same x) xs ≡ false) × AreDistinct xs

  -- A row goes in where no row that is there agrees with it.
  pub append-AreDistinct :
      ((x y : A) → same x y ≡ same y x)
      → (xs : List A) (x : A) → exists (same x) xs ≡ false
      → AreDistinct xs
      → AreDistinct (xs ++ x ∷ [])
  append-AreDistinct c [] x e h = (refl, tt)
  append-AreDistinct c (y ∷ xs) x e h = (
    exists-snoc (same y) xs x h.0 (ground (arith, c y x)),
    append-AreDistinct c xs x (ground arith) h.1,
  )

  pub update-AreDistinct :
      (p : A → Bool) (f : A → A)
      → ((x y : A) → same (f x) y ≡ same x y)
      → ((x y : A) → same x (f y) ≡ same x y)
      → (xs : List A) → AreDistinct xs
      → AreDistinct (update p f xs)
  update-AreDistinct p f a b [] h = tt
  update-AreDistinct p f a b (x ∷ xs) h = (
    exists-update_same p (same _) f xs (b _) ∙ changed p f a x xs ∙ h.0,
    update-AreDistinct p f a b xs h.1,
  )
    where
      exists-ap : (q r : A → Bool) (xs : List A) → ((x : A) → q x ≡ r x) → exists q xs ≡ exists r xs
      exists-ap q r [] h = refl
      exists-ap q r (x ∷ xs) h = rw (h x) (rw (exists-ap q r xs h) refl)

      changed :
          (p : A → Bool) (f : A → A)
          → ((x y : A) → same (f x) y ≡ same x y)
          → (x : A) (xs : List A) → exists (same (if p x then f x else x)) xs ≡ exists (same x) xs
      changed p f a x xs = elim (Bool-cases (p x)) [
        | inl e ↦ rw e (exists-ap (same (f x)) (same x) xs (a x))
        | inr e ↦ rw e refl
      ]

  pub delete-AreDistinct : (p : A → Bool) (xs : List A) → AreDistinct xs → AreDistinct (delete p xs)
  delete-AreDistinct p [] h = tt
  delete-AreDistinct p (x ∷ xs) h = elim (Bool-cases (p x)) [
    | inl e ↦ rw e (delete-AreDistinct p xs h.1)
    | inr e ↦ rw e (exists-delete p (same x) xs h.0, delete-AreDistinct p xs h.1)
  ]

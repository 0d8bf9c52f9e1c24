-- ===== src/Store/Polling/Earliest.antt =====
-- infrastructure/persistence/task_repository.go: ORDER BY scheduled_at LIMIT 1, which row it picks.
use antflow_server.Base.{
  ◌≤◌, Bool, true, false, ◌≡◌, ◌⊎◌, refl, subst, none, some, List, [], ◌∷◌, leb, leb→le, select,
  exists, Bool-cases, Option-cases, inl, inr, arith,
}
use antflow_server.Domain.{Task}
use antflow_server.Store.Tasks.{earliest}

-- What is chosen is eligible, and nothing eligible was due before it.
abbrev pub IsFirst : (Task → Bool) → Task → List Task → Type 0
IsFirst p t [] = Unit {0}
IsFirst p t (x ∷ xs) = (p x ≡ true → t.scheduled_at ≤ x.scheduled_at) × IsFirst p t xs

pub IsFirst-weaken :
    (p : Task → Bool) (t u : Task) (xs : List Task)
    → t.scheduled_at ≤ u.scheduled_at
    → IsFirst p u xs
    → IsFirst p t xs
IsFirst-weaken p t u [] h k = tt
IsFirst-weaken p t u (x ∷ xs) h k =
    ((λ e. let m = k.0 e in omega arith), IsFirst-weaken p t u xs h k.1)

pub IsFirst-none :
    (p : Task → Bool) (t : Task) (xs : List Task) → earliest (select p xs) ≡ none → IsFirst p t xs
unfolding earliest
IsFirst-none p t [] h = tt
IsFirst-none p t (x ∷ xs) h = elim (Bool-cases (p x)) [
  | inl e ↦ absurd (let q = rw e at h in cc)
  | inr e ↦ ((λ q. absurd cc), IsFirst-none p t xs (rw e at h))
]

pub IsFirst-of :
    (p : Task → Bool) (xs : List Task) {u t : Task}
    → u ≡ t
    → (p u ≡ true) × IsFirst p u xs
    → (p t ≡ true) × IsFirst p t xs
IsFirst-of p xs e h = subst (λ x. (p x ≡ true) × IsFirst p x xs) e h

pub earliest-IsFirst :
    (p : Task → Bool) (xs : List Task) {t : Task}
    → earliest (select p xs) ≡ some t
    → (p t ≡ true) × IsFirst p t xs
unfolding earliest
earliest-IsFirst p [] h = absurd cc
earliest-IsFirst p (x ∷ xs) {t = t} h = elim (Bool-cases (p x)) [
  | inr e ↦ (let (a, b) = earliest-IsFirst p xs (rw e at h) in (a, ((λ q. absurd cc), b)))
  | inl e ↦ elim (Option-cases (earliest (select p xs))) [
    | inl n ↦
        (let q = rw n at (rw e at h) in
          let r : x ≡ t = cc in
          IsFirst-of p (x ∷ xs) r (e, ((λ _. omega arith), IsFirst-none p x xs n)))
    | inr (u, n) ↦
        (let (a, b) = earliest-IsFirst p xs n in
          let q = rw n at (rw e at h) in
          elim (Bool-cases (leb x.scheduled_at u.scheduled_at)) [
            | inl m ↦
                (let r : x ≡ t = (let q' = rw m at q in cc) in
                  IsFirst-of p (x ∷ xs) r
                    (e, ((λ _. omega arith), IsFirst-weaken p x u xs (leb→le _ _ m) b)))
            | inr m ↦
                (let r : u ≡ t = (let q' = rw m at q in cc) in
                  IsFirst-of p (x ∷ xs) r (a, ((λ _. ground arith), b)))
          ])
  ]
]

-- The task is a row of the table.
abbrev pub IsRow : Task → List Task → Type 0
IsRow u [] = ⊥
IsRow u (x ∷ xs) = (u ≡ x) ⊎ IsRow u xs

pub earliest-IsRow :
    (p : Task → Bool) (xs : List Task) {u : Task} → earliest (select p xs) ≡ some u → IsRow u xs
unfolding earliest
earliest-IsRow p [] h = absurd cc
earliest-IsRow p (x ∷ xs) {u = u} h = elim (Bool-cases (p x)) [
  | inr m ↦ inr (earliest-IsRow p xs (rw m at h))
  | inl m ↦
      (let q = rw m at h in
        elim (Option-cases (earliest (select p xs))) [
          | inl n ↦ (let q' = rw n at q in inl cc)
          | inr (t, n) ↦ elim (Bool-cases (leb x.scheduled_at t.scheduled_at)) [
            | inl b ↦ (let q' = rw b at (rw n at q) in inl cc)
            | inr b ↦
                (let q' = rw b at (rw n at q) in
                  let r : t ≡ u = cc in inr (subst (λ y. IsRow y xs) r (earliest-IsRow p xs n)))
          ]
        ])
]

pub exists-IsFirst :
    (p : Task → Bool) (xs : List Task) → earliest (select p xs) ≡ none → exists p xs ≡ false
unfolding earliest
exists-IsFirst p [] h = refl
exists-IsFirst p (x ∷ xs) h = elim (Bool-cases (p x)) [
  | inl e ↦ absurd (let q = rw e at h in cc)
  | inr e ↦ (let k = exists-IsFirst p xs (rw e at h) in ground arith)
]

-- No row that `c` picks passes `p`.
abbrev pub Spares : (Task → Bool) → (Task → Bool) → List Task → Type 0
Spares p c [] = Unit {0}
Spares p c (x ∷ xs) = (c x ≡ true → p x ≡ false) × Spares p c xs

pub earliest-Spares :
    (p c : Task → Bool) (xs : List Task) {u : Task}
    → Spares p c xs
    → earliest (select p xs) ≡ some u
    → c u ≡ false
unfolding earliest
earliest-Spares p c [] l e = absurd cc
earliest-Spares p c (x ∷ xs) {u = u} l e = elim (Bool-cases (p x)) [
  | inr m ↦ earliest-Spares p c xs l.1 (rw m at e)
  | inl m ↦
      (let k : c x ≡ false = (let l0 = l.0 in ground arith) in
        let q = rw m at e in
        elim (Option-cases (earliest (select p xs))) [
          | inl n ↦ (let q' = rw n at q in let r : x ≡ u = cc in subst (λ y. c y ≡ false) r k)
          | inr (t, n) ↦ elim (Bool-cases (leb x.scheduled_at t.scheduled_at)) [
            | inl b ↦
                (let q' = rw b at (rw n at q) in let r : x ≡ u = cc in subst (λ y. c y ≡ false) r k)
            | inr b ↦
                (let q' = rw b at (rw n at q) in
                  let r : t ≡ u = cc in subst (λ y. c y ≡ false) r (earliest-Spares p c xs l.1 n))
          ]
        ])
]

-- ===== src/Signals/Draining.antt =====
-- usecase/signal.go: Drain, which the service calls where an execution ends.
use antflow_server.Base.{
  find-exists_other, subst, ◌∙◌, find-spared, Bool, true, false, ◌≡◌, refl, none, some, List, [],
  ◌∷◌, str_eq, str_eq_iff, str_eq_refl, ◌==◌, find, delete, select, exists, Bool-cases, inl, inr,
  arith,
}
use antflow_server.Domain.{canceled, err}
use antflow_server.Signals.{
  SignalKey, key_eq, Waiter, SignalStore, waits_on, pends_on, waiter_of, pending_of, wait_receive,
  receive_from, drain, of_execution, pending_of_execution,
}
use antflow_server.Signals.Channels.{IsReachable, AreApart, on_channel, select-missing, found-open}
use antflow_server.Signals.Channels.Reachable.{reachable-IsSound}

key_execution : (j k : SignalKey) → key_eq j k ≡ true → j.execution_id ≡ k.execution_id
key_execution j k h =
    let e : str_eq j.execution_id k.execution_id ≡ true = ground arith in
    (str_eq_iff j.execution_id k.execution_id).0 e

module _ {A : Type 0} where
  -- No row that passes is left, where all that would pass are deleted.
  find-deleted :
      (p q : A → Bool)
      → ((x : A) → p x ≡ true → q x ≡ true)
      → (xs : List A) → find p (delete q xs) ≡ none
  find-deleted p q h [] = refl
  find-deleted p q h (x ∷ xs) = ground (arith, h x, find-deleted p q h xs)

closes :
    (p q : Waiter → Bool)
    → ((x : Waiter) → p x ≡ true → q x ≡ true)
    → (xs : List Waiter) {x : Waiter} → find p xs ≡ some x
    → exists (λ y. y.ch == x.ch) (select q xs) ≡ true
closes p q h [] f = absurd cc
closes p q h (y ∷ xs) {x = x} f = elim (Bool-cases (p y)) [
  | inl e ↦ let g = rw e at f in let r : y ≡ x = cc in rw (h y e) (rw r (ground arith))
  | inr e ↦ (let k = closes p q h xs (rw e at f) in ground arith)
]

-- The channel of a row that is not selected is on none of those that are.
select-apart :
    (p q : Waiter → Bool)
    → ((x : Waiter) → p x ≡ true → q x ≡ false)
    → (xs : List Waiter) {y : Waiter} → AreApart xs
    → find p xs ≡ some y
    → exists (on_channel y.ch) (select q xs) ≡ false
select-apart p q h [] a f = absurd cc
select-apart p q h (x ∷ xs) {y = y} a f = elim (Bool-cases (p x)) [
  | inl e ↦
      (let g = rw e at f in
        let r : x ≡ y = cc in
        rw (h x e) (
          subst (λ z. exists (on_channel z.ch) (select q xs) ≡ false) r
            (select-missing (on_channel x.ch) q xs a.0)))
  | inr e ↦
      (let g = rw e at f in
        let k = select-apart p q h xs a.1 g in
        let there : exists (on_channel y.ch) xs ≡ true =
          find-exists_other p (on_channel y.ch) xs g (ground arith) in
        let other : (x.ch == y.ch) ≡ false = elim (Bool-cases (x.ch == y.ch)) [
          | inl m ↦
              absurd (let n : x.ch ≡ y.ch = ground arith in let b = a.0 in let c = rw n at b in cc)
          | inr m ↦ m
        ] in
        elim (Bool-cases (q x)) [ inl m ↦ rw m (rw other k) | inr m ↦ rw m k ])
]

-- In a store that calls have made, let a Wait be registered on a key of an execution, and one on a key
-- of another execution. Drain of the first ends the first Wait with the error `canceled`, takes it
-- out of the store, and forgets the signal of its key. The other Wait stays registered, goes on
-- blocking on the same channel, and the signal of its key stays. A Wait that a later one on its key
-- has replaced is not registered.
pub drain_lem :
    (k j : SignalKey) (x y : Waiter) (s : SignalStore)
    → IsReachable s
    → waiter_of k s ≡ some x
    → waiter_of j s ≡ some y
    → str_eq j.execution_id k.execution_id ≡ false
    → let s' = drain k.execution_id s in
      (wait_receive x.ch s' ≡ some (err canceled, s'))
      × (waiter_of k s' ≡ none)
      × (pending_of k s' ≡ none)
      × (waiter_of j s' ≡ some y)
      × (pending_of j s' ≡ pending_of j s)
      × (s'.channels y.ch ≡ s.channels y.ch)
      × (wait_receive y.ch s' ≡ none)
unfolding drain wait_receive receive_from
drain_lem k j x y s reach h g n =
    let id = k.execution_id in
    let i = reachable-IsSound reach in
    let mine : (w : SignalKey) → key_eq w k ≡ true → str_eq w.execution_id id ≡ true =
      λ w m. rw (key_execution w k m) (str_eq_refl id) in
    let others : (w : SignalKey) → key_eq w j ≡ true → str_eq w.execution_id id ≡ false =
      λ w m. rw (key_execution w j m) n in
    let c = closes (waits_on k) (of_execution id) (λ w m. mine w.key m) s.waiters h in
    let o = found-open (waits_on k) s.channels s.next_channel s.waiters i.opened h in
    let o' = found-open (waits_on j) s.channels s.next_channel s.waiters i.opened g in
    let c' =
      select-apart (waits_on j) (of_execution id) (λ w m. others w.key m) s.waiters i.apart g in
    (
      rw c (rw o refl),
      find-deleted (waits_on k) (of_execution id) (λ w m. mine w.key m) s.waiters,
      find-deleted (pends_on k) (pending_of_execution id) (λ w m. mine w.key m) s.pending,
      find-spared (waits_on j) (of_execution id) (λ w m. others w.key m) s.waiters ∙ g,
      find-spared (pends_on j) (pending_of_execution id) (λ w m. others w.key m) s.pending,
      rw c' refl,
      rw c' (rw o' refl),
    )

-- ===== src/Signals/Channels.antt =====
-- usecase/signal.go: the channels of the goroutines that wait, in every order of the calls. In Go a
-- send on a closed channel panics, and so does closing a channel twice.
pub mod Reachable
use antflow_server.Base.{
  ℕ, ◌+◌, ◌<◌, Bool, true, false, ◌≡◌, refl, ap, ◌∙◌, subst, sym, some, List, [], ◌∷◌, String, ◌==◌,
  find, delete, select, exists, Bool-cases, Option-cases, inl, inr, arith,
}
use mathlib.Core.Option.{some-injective}
use antflow_server.Domain.{Bytes, Result}
use antflow_server.Signals.{
  SignalKey, Channel, Waiter, SignalStore, new_signal_store, open_channel, delete_waiter, waits_on,
  waiter_of, pending_of, send, send_to, wait_begin, wait_at, wait_receive, receive_from,
  wait_timeout, wait_cancelled, of_execution, drain,
}

-- What any calls, one after another, can make of an empty store.
pub data IsReachable : SignalStore → Type 0 where
  new : IsReachable new_signal_store
  sent : {s : SignalStore} (k : SignalKey) (p : Bytes) → IsReachable s → IsReachable (send k p s).1
  began : {s : SignalStore} (k : SignalKey) → IsReachable s → IsReachable (wait_begin k s).1
  received :
      {s s' : SignalStore} {r : Result Bytes} (c : ℕ)
      → IsReachable s
      → wait_receive c s ≡ some (r, s')
      → IsReachable s'
  timed_out : {s : SignalStore} (k : SignalKey) → IsReachable s → IsReachable (wait_timeout k s).1
  cancelled : {s : SignalStore} (k : SignalKey) → IsReachable s → IsReachable (wait_cancelled k s).1
  drained : {s : SignalStore} (id : String) → IsReachable s → IsReachable (drain id s)

abbrev pub on_channel : ℕ → Waiter → Bool
on_channel c x = x.ch == c

-- No two goroutines that can be found share a channel.
abbrev pub AreApart : List Waiter → Type 0
AreApart [] = Unit {0}
AreApart (x ∷ xs) = (exists (on_channel x.ch) xs ≡ false) × AreApart xs

-- Each of their channels was made, is open, and is empty.
abbrev pub AreOpen : (ℕ → Channel) → ℕ → List Waiter → Type 0
AreOpen f n [] = Unit {0}
AreOpen f n (x ∷ xs) = (x.ch < n) × (f x.ch ≡ open_channel) × AreOpen f n xs

pub record IsSound (s : SignalStore) : Type 0 where
  pub apart : AreApart s.waiters
  pub opened : AreOpen s.channels s.next_channel s.waiters

pub delete-missing :
    (p q : Waiter → Bool) (xs : List Waiter) → exists p xs ≡ false → exists p (delete q xs) ≡ false
delete-missing p q [] h = refl
delete-missing p q (x ∷ xs) h = ground (arith, delete-missing p q xs)

pub delete-AreApart : (q : Waiter → Bool) (xs : List Waiter) → AreApart xs → AreApart (delete q xs)
delete-AreApart q [] h = tt
delete-AreApart q (x ∷ xs) h = elim (Bool-cases (q x)) [
  | inl e ↦ rw e (delete-AreApart q xs h.1)
  | inr e ↦ rw e (delete-missing (on_channel x.ch) q xs h.0, delete-AreApart q xs h.1)
]

pub delete-AreOpen :
    (q : Waiter → Bool) (f : ℕ → Channel) (n : ℕ) (xs : List Waiter)
    → AreOpen f n xs
    → AreOpen f n (delete q xs)
delete-AreOpen q f n [] h = tt
delete-AreOpen q f n (x ∷ xs) h = elim (Bool-cases (q x)) [
  | inl e ↦ rw e (delete-AreOpen q f n xs h.2)
  | inr e ↦ rw e (h.0, h.1, delete-AreOpen q f n xs h.2)
]

-- A change of the channels that spares those of the list.
pub other-AreOpen :
    (f g : ℕ → Channel) (m n : ℕ) (xs : List Waiter)
    → m < n + 1
    → ((c : ℕ) → c < m → exists (on_channel c) xs ≡ true → g c ≡ f c)
    → AreOpen f m xs
    → AreOpen g n xs
other-AreOpen f g m n [] k e h = tt
other-AreOpen f g m n (x ∷ xs) k e h = (
  omega (arith, h.0),
  subst (λ v. v ≡ open_channel) (sym (e x.ch h.0 (ground arith))) h.1,
  other-AreOpen f g m n xs k (λ c l i. e c l (ground arith)) h.2,
)

find-on_channel :
    (p : Waiter → Bool) (xs : List Waiter) {x : Waiter}
    → find p xs ≡ some x
    → exists (on_channel x.ch) xs ≡ true
find-on_channel p [] h = absurd cc
find-on_channel p (y ∷ xs) {x = x} h = elim (Bool-cases (p y)) [
  | inl e ↦ (let q = rw e at h in let r : y ≡ x = cc in rw r (ground arith))
  | inr e ↦ (let k = find-on_channel p xs (rw e at h) in ground arith)
]

-- The channel of a row that is deleted is on no other row.
pub deleted-channel :
    (p : Waiter → Bool) (xs : List Waiter) {x : Waiter}
    → AreApart xs
    → find p xs ≡ some x
    → exists (on_channel x.ch) (delete p xs) ≡ false
deleted-channel p [] a h = refl
deleted-channel p (y ∷ xs) {x = x} a h = elim (Bool-cases (p y)) [
  | inl e ↦
      let q = rw e at h in
      let r : y ≡ x = cc in rw e (delete-missing (on_channel x.ch) p xs (rw r at a.0))
  | inr e ↦
      let f = rw e at h in
      let k = find-on_channel p xs f in
      let d = deleted-channel p xs a.1 f in
      rw e (elim (Bool-cases (on_channel x.ch y)) [
        | inl same ↦ absurd (let c : y.ch ≡ x.ch = ground arith in let z = rw c at a.0 in cc)
        | inr other ↦ rw other d
      ])
]

-- In the select of Send the channel has room.
pub found-open :
    (p : Waiter → Bool) (f : ℕ → Channel) (n : ℕ) (xs : List Waiter) {x : Waiter}
    → AreOpen f n xs
    → find p xs ≡ some x
    → f x.ch ≡ open_channel
found-open p f n [] o h = absurd cc
found-open p f n (y ∷ xs) {x = x} o h = elim (Bool-cases (p y)) [
  | inl e ↦ (let q = rw e at h in let r : y ≡ x = cc in rw r at o.1)
  | inr e ↦ found-open p f n xs o.2 (rw e at h)
]

pub open-at :
    (f : ℕ → Channel) (n : ℕ) (xs : List Waiter) (c : ℕ)
    → AreOpen f n xs
    → exists (on_channel c) xs ≡ true
    → (c < n) × (f c ≡ open_channel)
open-at f n [] c o h = absurd cc
open-at f n (x ∷ xs) c o h = elim (Bool-cases (on_channel c x)) [
  | inl e ↦ (let q : x.ch ≡ c = ground arith in (rw (← q) o.0, rw (← q) o.1))
  | inr e ↦ open-at f n xs c o.2 (rw e at h)
]

pub select-missing :
    (p q : Waiter → Bool) (xs : List Waiter) → exists p xs ≡ false → exists p (select q xs) ≡ false
select-missing p q [] h = refl
select-missing p q (x ∷ xs) h = ground (arith, select-missing p q xs)

-- Drain deletes rows, and closes the channels of those rows only.
pub kept-apart :
    (q : Waiter → Bool) (c : ℕ) (xs : List Waiter)
    → AreApart xs
    → exists (on_channel c) (delete q xs) ≡ true
    → exists (on_channel c) (select q xs) ≡ false
kept-apart q c [] a h = refl
kept-apart q c (x ∷ xs) a h = elim (Bool-cases (q x)) [
  | inl e ↦
      let k = rw e at h in
      let i = kept-apart q c xs a.1 k in
      rw e (elim (Bool-cases (on_channel c x)) [
        | inl same ↦ absurd (
            let r : x.ch ≡ c = ground arith in
            let z = delete-missing (on_channel c) q xs (rw r at a.0) in cc)
        | inr other ↦ rw other i
      ])
  | inr e ↦
      let k = rw e at h in
      rw e (elim (Bool-cases (on_channel c x)) [
        | inl same ↦
            (let r : x.ch ≡ c = ground arith in select-missing (on_channel c) q xs (rw r at a.0))
        | inr other ↦ kept-apart q c xs a.1 (rw other at k)
      ])
]

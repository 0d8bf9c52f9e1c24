-- ===== src/Signals/Channels/Reachable.antt =====
-- usecase/signal.go: every call keeps the channels of the waiters sound.
use antflow_server.Base.{
  ℕ, ◌+◌, Bool, true, false, ◌≡◌, refl, ap, ◌∙◌, subst, sym, some, List, [], ◌∷◌, String, ◌==◌,
  select, exists, Bool-cases, Option-cases, inl, inr, arith,
}
use mathlib.Core.Option.{some-injective}
use antflow_server.Domain.{Bytes, Result}
use antflow_server.Signals.{
  SignalKey, Channel, Waiter, SignalStore, new_signal_store, open_channel, delete_waiter, waits_on,
  waiter_of, pending_of, send, send_to, wait_begin, wait_at, wait_receive, receive_from,
  wait_timeout, wait_cancelled, of_execution, drain,
}
use antflow_server.Signals.Channels.{
  AreApart, AreOpen, IsReachable, IsSound, began, cancelled, delete-AreApart, delete-AreOpen,
  delete-missing, deleted-channel, drained, found-open, kept-apart, new, on_channel, open-at,
  other-AreOpen, received, select-missing, sent, timed_out,
}

delete_waiter-IsSound : (k : SignalKey) (s : SignalStore) → IsSound s → IsSound (delete_waiter k s)
delete_waiter-IsSound k s i = record {
  apart = delete-AreApart (waits_on k) s.waiters i.apart;
  opened = delete-AreOpen (waits_on k) s.channels s.next_channel s.waiters i.opened;
}

send-IsSound : (k : SignalKey) (p : Bytes) (s : SignalStore) → IsSound s → IsSound (send k p s).1
unfolding send send_to
send-IsSound k p s i = elim (Option-cases (waiter_of k s)) [
  | inl e ↦ rw e (record { apart = i.apart; opened = i.opened })
  | inr (x, e) ↦
      let o = found-open (waits_on k) s.channels s.next_channel s.waiters i.opened e in
      let d = deleted-channel (waits_on k) s.waiters i.apart e in
      rw e (
        rw o (record {
          apart = delete-AreApart (waits_on k) s.waiters i.apart;
          opened =
              other-AreOpen s.channels _ s.next_channel s.next_channel _ (omega arith)
                (λ c l m. elim (Bool-cases (c == x.ch)) [
                  | inl same ↦ absurd (let q : c ≡ x.ch = ground arith in let z = rw q at m in cc)
                  | inr other ↦ rw other refl
                ])
                (delete-AreOpen (waits_on k) s.channels s.next_channel s.waiters i.opened);
        }))
]

above :
    (f : ℕ → Channel) (n : ℕ) (xs : List Waiter) → AreOpen f n xs → exists (on_channel n) xs ≡ false
above f n [] o = refl
above f n (x ∷ xs) o = let k = above f n xs o.2 in let l = o.0 in ground arith

eq_refl : (c : ℕ) → (c == c) ≡ true
eq_refl c = ground arith

wait_begin-IsSound : (k : SignalKey) (s : SignalStore) → IsSound s → IsSound (wait_begin k s).1
unfolding wait_begin wait_at
wait_begin-IsSound k s i = elim (Option-cases (pending_of k s)) [
  | inl e ↦ rw e (record {
    apart = (
      delete-missing _ (waits_on k) s.waiters (above s.channels s.next_channel s.waiters i.opened),
      delete-AreApart (waits_on k) s.waiters i.apart,
    );
    opened = (
      omega arith,
      rw (eq_refl s.next_channel) refl,
      other-AreOpen s.channels _ s.next_channel (s.next_channel + 1) _ (omega arith)
          (λ c l m. let n : (c == s.next_channel) ≡ false = ground arith in rw n refl)
          (delete-AreOpen (waits_on k) s.channels s.next_channel s.waiters i.opened),
    );
  })
  | inr (x, e) ↦ rw e (record { apart = i.apart; opened = i.opened })
]

wait_receive-IsSound :
    (c : ℕ) (s s' : SignalStore) (r : Result Bytes)
    → IsSound s
    → wait_receive c s ≡ some (r, s')
    → IsSound s'
unfolding wait_receive receive_from
wait_receive-IsSound c s s' r i h = elim (Option-cases (s.channels c).buffer) [
  | inl e ↦ elim (Bool-cases (s.channels c).closed) [
    | inl k ↦ subst IsSound (ap (λ y. y.1) (some-injective _ _ (rw k at (rw e at h)))) i
    | inr k ↦ absurd (let q = rw k at (rw e at h) in cc)
  ]
  | inr (p, e) ↦ subst IsSound (ap (λ y. y.1) (some-injective _ _ (rw e at h))) (record {
    apart = i.apart;
    opened =
        other-AreOpen s.channels _ s.next_channel s.next_channel _ (omega arith)
          (λ x l m. elim (Bool-cases (x == c)) [
            | inl same ↦ absurd (
                let q : x ≡ c = ground arith in
                let o = (open-at s.channels s.next_channel s.waiters x i.opened m).1 in
                let z = rw (ap s.channels (sym q) ∙ o) at e in cc)
            | inr other ↦ rw other refl
          ])
          i.opened;
  })
]

drain-IsSound : (id : String) (s : SignalStore) → IsSound s → IsSound (drain id s)
unfolding drain
drain-IsSound id s i = record {
  apart = delete-AreApart (of_execution id) s.waiters i.apart;
  opened =
      other-AreOpen s.channels _ s.next_channel s.next_channel _ (omega arith)
        (λ c l m. rw (kept-apart (of_execution id) c s.waiters i.apart m) refl)
        (delete-AreOpen (of_execution id) s.channels s.next_channel s.waiters i.opened);
}

pub reachable-IsSound : {s : SignalStore} → IsReachable s → IsSound s
unfolding new_signal_store wait_timeout wait_cancelled
reachable-IsSound new = record { apart = tt; opened = tt }
reachable-IsSound (sent k p r) = send-IsSound k p _ (reachable-IsSound r)
reachable-IsSound (began k r) = wait_begin-IsSound k _ (reachable-IsSound r)
reachable-IsSound (received c r h) = wait_receive-IsSound c _ _ _ (reachable-IsSound r) h
reachable-IsSound (timed_out k r) = delete_waiter-IsSound k _ (reachable-IsSound r)
reachable-IsSound (cancelled k r) = delete_waiter-IsSound k _ (reachable-IsSound r)
reachable-IsSound (drained id r) = drain-IsSound id _ (reachable-IsSound r)

selected-AreApart : (q : Waiter → Bool) (xs : List Waiter) → AreApart xs → AreApart (select q xs)
selected-AreApart q [] h = tt
selected-AreApart q (x ∷ xs) h = elim (Bool-cases (q x)) [
  | inl e ↦ rw e (select-missing (on_channel x.ch) q xs h.0, selected-AreApart q xs h.1)
  | inr e ↦ rw e (selected-AreApart q xs h.1)
]

selected-on :
    (q : Waiter → Bool) (c : ℕ) (xs : List Waiter)
    → exists (on_channel c) (select q xs) ≡ true
    → exists (on_channel c) xs ≡ true
selected-on q c [] h = h
selected-on q c (x ∷ xs) h = ground (arith, selected-on q c xs)

-- In a store that calls have made, in any order, Send never meets a closed or a full channel: where
-- a goroutine waits for the key, the signal is delivered, on an open and empty channel, and the
-- default case of the select is never taken. And Drain never closes a channel twice: the channels
-- that it closes are open, and each is on one row.
pub reachable_waiters :
    (s : SignalStore) (k : SignalKey) (p : Bytes) (id : String)
    → IsReachable s
    → ((x : Waiter)
        → waiter_of k s ≡ some x
        → (s.channels x.ch ≡ open_channel) × ((send k p s).0 ≡ true))
      × AreApart (select (of_execution id) s.waiters)
      × ((c : ℕ)
          → exists (on_channel c) (select (of_execution id) s.waiters) ≡ true
          → s.channels c ≡ open_channel)
unfolding send send_to
reachable_waiters s k p id r =
    let i = reachable-IsSound r in
    (
      λ x e.
          (let o = found-open (waits_on k) s.channels s.next_channel s.waiters i.opened e in
            (o, rw e (rw o refl))),
      selected-AreApart (of_execution id) s.waiters i.apart,
      λ c h.
          (open-at s.channels s.next_channel s.waiters c i.opened
            (selected-on (of_execution id) c s.waiters h)).1,
    )

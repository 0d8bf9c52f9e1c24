-- ===== src/Signals/Delivery.antt =====
-- usecase/signal.go: what becomes of a signal, by the order of the calls.
use antflow_server.Base.{
  ℕ, ◌+◌, Bool, true, false, ◌≡◌, ◌∙◌, ap, refl, none, some, List, [], ◌∷◌, str_eq_refl, ◌==◌, find,
  delete, arith,
}
use antflow_server.Domain.{Bytes, canceled, ok, err}
use antflow_server.Signals.{
  SignalKey, open_channel, set_channel, delete_waiter, put_pending, key_eq, Waiter, Pending,
  SignalStore, waits_on, pends_on, waiter_of, pending_of, ready, blocked, send, send_to, wait_begin,
  wait_at, wait_receive, receive_from, wait_timeout,
}

key_eq_refl : (k : SignalKey) → key_eq k k ≡ true
key_eq_refl k = rw (str_eq_refl k.execution_id) (rw (str_eq_refl k.name) refl)

find-delete : {A : Type 0} (p : A → Bool) (xs : List A) → find p (delete p xs) ≡ none
find-delete p [] = refl
find-delete p (x ∷ xs) = ground (arith, find-delete p xs)

delete-delete : {A : Type 0} (p : A → Bool) (xs : List A) → delete p (delete p xs) ≡ delete p xs
delete-delete p [] = refl
delete-delete p (x ∷ xs) = ground (arith, delete-delete p xs)

send-idle :
    (k : SignalKey) (p : Bytes) (s : SignalStore)
    → waiter_of k s ≡ none
    → send k p s ≡ (false, put_pending k p s)
unfolding send send_to
send-idle k p s h = rw h refl

-- What `Send` does to a goroutine that blocks.
abbrev delivered : SignalKey → Bytes → Waiter → SignalStore → SignalStore
delivered k p x s = delete_waiter k (record s {
  channels = set_channel x.ch (record (s.channels x.ch) { buffer = some p }) s.channels;
})

send-waiting :
    (k : SignalKey) (p : Bytes) (x : Waiter) (s : SignalStore)
    → waiter_of k s ≡ some x
    → (s.channels x.ch).buffer ≡ none
    → send k p s ≡ (true, delivered k p x s)
unfolding send send_to
send-waiting k p x s h e = rw h (rw e refl)

wait_begin-kept :
    (k : SignalKey) (x : Pending) (s : SignalStore)
    → pending_of k s ≡ some x
    → wait_begin k s ≡ (ready x.payload, record s { pending = delete (pends_on k) s.pending })
unfolding wait_begin wait_at
wait_begin-kept k x s h = rw h refl

abbrev waiting : SignalKey → SignalStore → SignalStore
waiting k s = record s {
  waiters = record { key = k; ch = s.next_channel } ∷ delete (waits_on k) s.waiters;
  channels = set_channel s.next_channel open_channel s.channels;
  next_channel = s.next_channel + 1;
}

wait_begin-blocks :
    (k : SignalKey) (s : SignalStore)
    → pending_of k s ≡ none
    → wait_begin k s ≡ (blocked s.next_channel, waiting k s)
unfolding wait_begin wait_at
wait_begin-blocks k s h = rw h refl

wait_receive-full :
    (c : ℕ) (p : Bytes) (s : SignalStore)
    → (s.channels c).buffer ≡ some p
    → (s' : SignalStore) × (wait_receive c s ≡ some (ok p, s'))
unfolding wait_receive receive_from
wait_receive-full c p s h = rw h (_, refl)

wait_receive-empty :
    (c : ℕ) (s : SignalStore)
    → (s.channels c).buffer ≡ none
    → (s.channels c).closed ≡ false
    → wait_receive c s ≡ none
unfolding wait_receive receive_from
wait_receive-empty c s h e = rw h (rw e refl)

wait_receive-closed :
    (c : ℕ) (s : SignalStore)
    → (s.channels c).buffer ≡ none
    → (s.channels c).closed ≡ true
    → wait_receive c s ≡ some (err canceled, s)
unfolding wait_receive receive_from
wait_receive-closed c s h e = rw h (rw e refl)

put_pending-pending_of :
    (k : SignalKey) (p : Bytes) (s : SignalStore)
    → pending_of k (put_pending k p s) ≡ some (record { key = k; payload = p })
put_pending-pending_of k p s = rw (key_eq_refl k) refl

waiting-waiter_of :
    (k : SignalKey) (s : SignalStore)
    → waiter_of k (waiting k s) ≡ some (record { key = k; ch = s.next_channel })
waiting-waiter_of k s = rw (key_eq_refl k) refl

eq_refl : (c : ℕ) → (c == c) ≡ true
eq_refl c = ground arith

-- A signal that comes before its Wait is kept, and the Wait returns it at once and takes it from the
-- store; of two signals of one key the last is kept.
pub wait-send :
    (k : SignalKey) (p q : Bytes) (s : SignalStore)
    → waiter_of k s ≡ none
    → let s' = (send k q (send k p s).1).1 in
      ((send k p s).0 ≡ false)
      × ((wait_begin k s').0 ≡ ready q)
      × (pending_of k (wait_begin k s').1 ≡ none)
wait-send k p q s h =
    let s1 = put_pending k p s in
    let s2 = put_pending k q s1 in
    let e = wait_begin-kept k _ s2 (put_pending-pending_of k q s1) in
    rw (send-idle k p s h) (
      rw (send-idle k q s1 h)
        (refl, ap (λ r. r.0) e, ap (λ r. pending_of k r.1) e ∙ find-delete (pends_on k) s2.pending))

-- A signal that comes while a Wait blocks is handed to it: Send reports the delivery, a second
-- signal of the key is kept for the next Wait, and the first Wait receives the first payload.
pub send-wait :
    (k : SignalKey) (p q : Bytes) (s : SignalStore)
    → pending_of k s ≡ none
    → let c = s.next_channel in
      let s1 = (wait_begin k s).1 in
      let s2 = (send k p s1).1 in
      let s3 = (send k q s2).1 in
      ((wait_begin k s).0 ≡ blocked c)
      × ((send k p s1).0 ≡ true)
      × ((send k q s2).0 ≡ false)
      × (pending_of k s3 ≡ some (record { key = k; payload = q }))
      × ((s4 : SignalStore) × (wait_receive c s3 ≡ some (ok p, s4)))
send-wait k p q s h =
    let c = s.next_channel in
    let s1 = waiting k s in
    let x : Waiter = record { key = k; ch = c } in
    let s2 = delivered k p x s1 in
    let s3 = put_pending k q s2 in
    let e = eq_refl c in
    rw (wait_begin-blocks k s h) (
      rw (send-waiting k p x s1 (waiting-waiter_of k s) (rw e refl)) (
        rw (send-idle k q s2 (find-delete (waits_on k) s1.waiters))
          (refl, refl, refl, put_pending-pending_of k q s2, wait_receive-full c p s3 (rw e refl))))

-- The timeout of an old Wait takes the channel of a newer one away: if two goroutines wait on one
-- key and the first times out, the next signal is not delivered to the second, which goes on
-- blocking though the signal lies in the store.
pub send-stale :
    (k : SignalKey) (p : Bytes) (s : SignalStore)
    → pending_of k s ≡ none
    → let s1 = (wait_begin k s).1 in
      let s2 = (wait_begin k s1).1 in
      let s3 = (wait_timeout k s2).1 in
      let s4 = (send k p s3).1 in
      ((wait_begin k s1).0 ≡ blocked (s.next_channel + 1))
      × ((send k p s3).0 ≡ false)
      × (pending_of k s4 ≡ some (record { key = k; payload = p }))
      × (wait_receive (s.next_channel + 1) s4 ≡ none)
unfolding wait_timeout
send-stale k p s h =
    let s1 = waiting k s in
    let s2 = waiting k s1 in
    let s3 = delete_waiter k s2 in
    let e = eq_refl (s.next_channel + 1) in
    rw (wait_begin-blocks k s h) (
      rw (wait_begin-blocks k s1 h) (
        rw (send-idle k p s3 (find-delete (waits_on k) s2.waiters)) (
          refl,
          refl,
          put_pending-pending_of k p s3,
          wait_receive-empty (s.next_channel + 1) (put_pending k p s3) (rw e refl) (rw e refl),
        )))

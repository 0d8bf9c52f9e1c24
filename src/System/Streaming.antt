-- ===== src/System/Streaming.antt =====
-- interface/grpc/history_handler.go: a stream polls for the events after the last one that it sent.
-- Over any run of the server between two polls it misses no event and repeats none.
use antflow_server.Base.{
  ℕ, ◌+◌, ◌≤◌, ◌<◌, false, ◌≡◌, refl, Option, none, some, List, [], ◌∷◌, ◌++◌, String, arith,
  select, select-append, Bool-cases, inl, inr,
}
use antflow_server.Domain.{HistoryEvent}
use antflow_server.Store.World.{Db, World}
use antflow_server.Store.History.{of_execution, of_execution_after, is_after, events_after}
use antflow_server.Handler.Streams.{cursor_after}
use antflow_server.System.{Event, run}
use antflow_server.System.History.{Ascends, IsLogged, run-history, select-Ascends, by_id-Ascends}

abbrev Below : Option ℕ → ℕ → Type 0
Below none lo = Unit {0}
Below (some n) lo = n < lo

Below-mono : (a : Option ℕ) (m n : ℕ) → m ≤ n → Below a m → Below a n
Below-mono none m n p q = tt
Below-mono (some k) m n p q = omega arith

split-Ascends :
    (lo : ℕ) (xs ys : List HistoryEvent) (hi : ℕ)
    → Ascends lo (xs ++ ys) hi
    → (mid : ℕ) × Ascends lo xs mid × Ascends mid ys hi
split-Ascends lo [] ys hi h = (lo, omega arith, h)
split-Ascends lo (x ∷ xs) ys hi h =
    let (mid, p, q) = split-Ascends (x.id + 1) xs ys hi h.1 in (mid, (h.0, p), q)

Ascends-le : (lo : ℕ) (es : List HistoryEvent) (hi : ℕ) → Ascends lo es hi → lo ≤ hi
Ascends-le lo [] hi h = h
Ascends-le lo (e ∷ es) hi h = omega (arith, Ascends-le (e.id + 1) es hi h.1)

-- Behind the cursor nothing is held back.
select_after :
    (id : String) (a : Option ℕ) (lo : ℕ) (es : List HistoryEvent) (hi : ℕ)
    → Below a lo
    → Ascends lo es hi
    → select (of_execution_after id a) es ≡ select (of_execution id) es
select_after id none lo [] hi b h = refl
select_after id (some n) lo [] hi b h = refl
select_after id none lo (e ∷ es) hi b h =
    ground (arith, select_after id none (e.id + 1) es hi tt h.1)
select_after id (some n) lo (e ∷ es) hi b h =
    ground (arith, select_after id (some n) (e.id + 1) es hi (omega arith) h.1)

-- The cursor never falls, and stays below what comes next.
cursor_after-Below :
    (id : String) (a : Option ℕ) (lo : ℕ) (es : List HistoryEvent) (hi : ℕ)
    → Below a lo
    → Ascends lo es hi
    → Below (cursor_after a (select (of_execution id) es)) hi
cursor_after-Below id none lo [] hi b h = tt
cursor_after-Below id (some n) lo [] hi b h = omega arith
cursor_after-Below id a lo (e ∷ es) hi b h = elim (Bool-cases (of_execution id e)) [
  | inl t ↦ rw t (cursor_after-Below id (some e.id) (e.id + 1) es hi (omega arith) h.1)
  | inr f ↦
      rw f
        (cursor_after-Below id a (e.id + 1) es hi (Below-mono a lo (e.id + 1) (omega arith) b) h.1)
]

-- What was sent is not after the cursor: it has passed every one of these ids.
passed :
    (id : String) (n i lo : ℕ) (es : List HistoryEvent) (hi : ℕ)
    → i ≤ n
    → n < lo
    → Ascends lo es hi
    → is_after (cursor_after (some n) (select (of_execution id) es)) i ≡ false
passed id n i lo [] hi p q h = ground arith
passed id n i lo (e ∷ es) hi p q h = elim (Bool-cases (of_execution id e)) [
  | inl t ↦ rw t (passed id e.id i (e.id + 1) es hi (omega arith) (omega arith) h.1)
  | inr f ↦ rw f (passed id n i (e.id + 1) es hi p (omega arith) h.1)
]

select_passed :
    (id : String) (a c : Option ℕ) (lo : ℕ) (es : List HistoryEvent) (hi : ℕ)
    → cursor_after a (select (of_execution id) es) ≡ c
    → Ascends lo es hi
    → select (of_execution_after id c) es ≡ []
select_passed id a c lo [] hi q h = refl
select_passed id a c lo (e ∷ es) hi q h = elim (Bool-cases (of_execution id e)) [
  | inl t ↦
      let q' : cursor_after (some e.id) (select (of_execution id) es) ≡ c = rw t at q in
      let past : is_after c e.id ≡ false =
        rw (← q') (passed id e.id e.id (e.id + 1) es hi (omega arith) (omega arith) h.1) in
      rw (t, past) (select_passed id (some e.id) c (e.id + 1) es hi q' h.1)
  | inr f ↦ rw f (select_passed id a c (e.id + 1) es hi (rw f at q) h.1)
]

events_after-select :
    (id : String) (a : Option ℕ) (d : Db)
    → IsLogged d
    → events_after id a d.history ≡ select (of_execution_after id a) d.history
unfolding events_after
events_after-select id a d h =
    by_id-Ascends 0 _ d.event_seq (select-Ascends _ 0 d.history d.event_seq h)

page-append :
    (id : String) (xs new : List HistoryEvent) (hi : ℕ)
    → Ascends 0 (xs ++ new) hi
    → select (of_execution id) xs
        ++ select
            (of_execution_after id (cursor_after none (select (of_execution id) xs)))
            (xs ++ new)
      ≡ select (of_execution id) (xs ++ new)
page-append id xs new hi h =
    let (mid, p, q) = split-Ascends 0 xs new hi h in
    rw (
      select-append (of_execution_after id (cursor_after none (select (of_execution id) xs))) xs
          new,
      select-append (of_execution id) xs new,
      select_passed id none _ 0 xs mid refl p,
      select_after id (cursor_after none (select (of_execution id) xs)) mid new hi
          (cursor_after-Below id none 0 xs mid tt p) q,
    )

select_all :
    (id : String) (es : List HistoryEvent)
    → select (of_execution_after id none) es ≡ select (of_execution id) es
select_all id [] = refl
select_all id (e ∷ es) = ground (arith, select_all id es)

-- On a log that is in order, a stream polls once, any calls are made, and it polls again after the
-- last event that it sent: the two pages together are the events of the execution in the log as it
-- then stands, in order, each once.
pub stream_exactly_once :
    (w : World) (es : List Event) (id : String)
    → IsLogged w.db
    → let page = events_after id none w.db.history in
      page ++ events_after id (cursor_after none page) (run w es).db.history
      ≡ select (of_execution id) (run w es).db.history
stream_exactly_once w es id h =
    let r = run-history w es h in
    rw
      (
        events_after-select id none w.db h,
        events_after-select id _ (run w es).db r.0,
        r.1.1,
        select_all id w.db.history,
      )
      (page-append id w.db.history r.1.0 (run w es).db.event_seq (rw r.1.1 at r.0))

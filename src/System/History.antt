-- ===== src/System/History.antt =====
-- What any run of the server does to `history_event`, and what a client that streams it receives.
use antflow_server.Base.{
  ℕ, ◌+◌, ◌≤◌, ◌<◌, Bool, ◌≡◌, refl, sym, List, [], ◌∷◌, ◌++◌, arith, select, Bool-cases, inl, inr,
}
use mathlib.Core.List.{append-nil, append_assoc}
use antflow_server.Domain.{HistoryEvent}
use antflow_server.Store.World.{Db, World}
use antflow_server.Store.History.{by_id, insert_event}
use antflow_server.Store.Frame.{Frame}
use antflow_server.System.{Event, run, run-Rel}

abbrev pub Grows : List HistoryEvent → List HistoryEvent → Type 0
Grows xs ys = (new : List HistoryEvent) × (ys ≡ xs ++ new)

Grows-refl : (xs : List HistoryEvent) → Grows xs xs
Grows-refl xs = ([], sym (append-nil xs))

Grows-trans : (xs ys zs : List HistoryEvent) → Grows xs ys → Grows ys zs → Grows xs zs
Grows-trans xs ys zs (a, p) (b, q) = (a ++ b, rw (q, p) (append_assoc xs a b))

-- Ids ascend from `lo` and stay below `hi`.
abbrev pub Ascends : ℕ → List HistoryEvent → ℕ → Type 0
Ascends lo [] hi = lo ≤ hi
Ascends lo (e ∷ es) hi = (lo ≤ e.id) × Ascends (e.id + 1) es hi

Ascends-append :
    (lo : ℕ) (es : List HistoryEvent) (e : HistoryEvent) (hi : ℕ)
    → e.id ≡ hi
    → Ascends lo es hi
    → Ascends lo (es ++ e ∷ []) (hi + 1)
Ascends-append lo [] e hi p h = omega arith
Ascends-append lo (x ∷ es) e hi p h = (h.0, Ascends-append (x.id + 1) es e hi p h.1)

Ascends-mono :
    (lo : ℕ) (es : List HistoryEvent) (hi n : ℕ) → hi ≤ n → Ascends lo es hi → Ascends lo es n
Ascends-mono lo [] hi n p h = omega arith
Ascends-mono lo (x ∷ es) hi n p h = (h.0, Ascends-mono (x.id + 1) es hi n p h.1)

-- The log is in the order of its ids, all of which the sequence has passed.
abbrev pub IsLogged : Db → Type 0
IsLogged d = Ascends 0 d.history d.event_seq

-- One step of the log: it grows at its end, and stays in order.
record Logs (d d' : Db) : Type 0 where
  grown : Grows d.history d'.history
  ordered : IsLogged d → IsLogged d'

same_log : (d d' : Db) → d'.history ≡ d.history → d.event_seq ≤ d'.event_seq → Logs d d'
same_log d d' p q = record {
  grown = rw p (Grows-refl d.history);
  ordered = λ h. rw p (Ascends-mono 0 d.history d.event_seq d'.event_seq q h);
}

kept : (d d' : Db) → d'.history ≡ d.history → d'.event_seq ≡ d.event_seq → Logs d d'
kept d d' p q = same_log d d' p (omega arith)

logs_frame : Frame
logs_frame = record {
  Rel = Logs;
  rel_refl = λ d. kept d d refl refl;
  rel_trans = λ a b c p q. record {
    grown = Grows-trans a.history b.history c.history p.grown q.grown;
    ordered = λ h. q.ordered (p.ordered h);
  };
  on_sequence = λ d n h. same_log d _ refl h;
  on_checkpoints = λ d cs n. kept d _ refl refl;
  on_namespace = λ d x h. kept d _ refl refl;
  on_definition = λ d x h. kept d _ refl refl;
  on_deactivate = λ d p. kept d _ refl refl;
  on_step = λ d x h. kept d _ refl refl;
  on_execution = λ d x h. kept d _ refl refl;
  on_change = λ d p f c. kept d _ refl refl;
  on_task = λ d x h. kept d _ refl refl;
  on_task_update = λ d p f k. kept d _ refl refl;
  on_task_delete = λ d p. kept d _ refl refl;
  on_compensation = λ d x h. kept d _ refl refl;
  on_compensation_update = λ d p f k. kept d _ refl refl;
  on_compensation_delete = λ d p. kept d _ refl refl;
  on_event = λ d row h. record {
    grown = (row d.event_seq ∷ [], refl);
    ordered = λ l. Ascends-append 0 d.history (row d.event_seq) d.event_seq h l;
  };
}

-- In any run of the server the history is only appended to, and its events stay in the order of
-- their ids, whichever calls are made and whichever statements fail.
pub run-history :
    (w : World) (es : List Event)
    → IsLogged w.db
    → IsLogged (run w es).db × Grows w.db.history (run w es).db.history
unfolding logs_frame
run-history w es h = let r = run-Rel logs_frame w es in (r.ordered h, r.grown)

-- On a log in order, ORDER BY id changes nothing.
insert_first :
    (x : HistoryEvent) (lo : ℕ) (ys : List HistoryEvent) (hi : ℕ)
    → x.id < lo
    → Ascends lo ys hi
    → insert_event x ys ≡ x ∷ ys
unfolding insert_event
insert_first x lo [] hi p h = refl
insert_first x lo (y ∷ ys) hi p h = ground arith

Ascends-lower :
    (lo lo' : ℕ) (es : List HistoryEvent) (hi : ℕ) → lo' ≤ lo → Ascends lo es hi → Ascends lo' es hi
Ascends-lower lo lo' [] hi p h = omega arith
Ascends-lower lo lo' (e ∷ es) hi p h = (omega arith, h.1)

pub select-Ascends :
    (p : HistoryEvent → Bool) (lo : ℕ) (es : List HistoryEvent) (hi : ℕ)
    → Ascends lo es hi
    → Ascends lo (select p es) hi
select-Ascends p lo [] hi h = h
select-Ascends p lo (e ∷ es) hi h = elim (Bool-cases (p e)) [
  | inl t ↦ rw t (h.0, select-Ascends p (e.id + 1) es hi h.1)
  | inr f ↦ rw f (
      Ascends-lower (e.id + 1) lo (select p es) hi (omega arith)
        (select-Ascends p (e.id + 1) es hi h.1))
]

pub by_id-Ascends : (lo : ℕ) (es : List HistoryEvent) (hi : ℕ) → Ascends lo es hi → by_id es ≡ es
unfolding by_id
by_id-Ascends lo [] hi h = refl
by_id-Ascends lo (e ∷ es) hi h =
    rw (by_id-Ascends (e.id + 1) es hi h.1) (insert_first e (e.id + 1) es hi (omega arith) h.1)

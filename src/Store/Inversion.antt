-- ===== src/Store/Inversion.antt =====
-- What an action that returned a value has done, one lemma for each way to build an action.
use antflow_server.Base.{
  false, ◌||◌, ◌≡◌, refl, sym, ◌∙◌, Option-cases, ap, Option, none, some, String, Bool-cases, inl,
  inr,
}
use antflow_server.Domain.{Err, Result, ok, err}
use antflow_server.Store.World.{
  Db, World, M, pure, or_throw, throw, ◌>>=◌, continue, wrapping, rewrap, view, write, spend,
  next_fault, answer, answer_base, stmt, query, base_stmt, base_query, commit_db, working, finish,
  run_in_tx, finish_poll, poll_in_tx, rollback_db,
}

module _ {A B : Type 0} where
  continue-ok :
      (r : Result A) (f : A → M B) (w : World) {b : B}
      → (continue r f w).0 ≡ ok b
      → (a : A) × (r ≡ ok a)
  continue-ok (ok a) f w h = (a, refl)
  continue-ok (err e) f w h = absurd cc

  -- The first action returned some value too, and the rest ran from there.
  pub bind-ok :
      (m : M A) (f : A → M B) (w : World) {b : B}
      → ((m >>= f) w).0 ≡ ok b
      → (a : A) × ((m w).0 ≡ ok a) × ((m >>= f) w ≡ f a (m w).1)
  unfolding ◌>>=◌
  bind-ok m f w h =
      let (a, e) = continue-ok (m w).0 f (m w).1 h in (a, e, ap (λ r. continue r f (m w).1) e)

module _ {A : Type 0} where
  pub wrapping-ok :
      (s : String) (m : M A) (w : World) {a : A}
      → (wrapping s m w).0 ≡ ok a
      → ((m w).0 ≡ ok a) × ((wrapping s m w).1 ≡ (m w).1)
  unfolding wrapping
  wrapping-ok s m w h = (rewrap-ok s (m w).0 h, refl)
    where
      rewrap-ok : (s : String) (r : Result A) {a : A} → rewrap s r ≡ ok a → r ≡ ok a
      rewrap-ok s (ok a) h = h
      rewrap-ok s (err e) h = absurd cc

  pub or_throw-ok :
      (e : Err) (o : Option A) (w : World) {a : A}
      → (or_throw e o w).0 ≡ ok a
      → (o ≡ some a) × ((or_throw e o w).1 ≡ w)
  unfolding or_throw throw pure
  or_throw-ok e none w h = absurd cc
  or_throw-ok e (some a) w h = (cc, refl)

  answer-ok :
      (o : Option (A × Db)) (w : World) {a : A}
      → (answer o w).0 ≡ ok a
      → (d : Db) × (o ≡ some (a, d)) × (answer o w ≡ (ok a, write d w))
  answer-ok none w h = absurd cc
  answer-ok (some (x, d)) w h =
      let e : x ≡ _ = cc in (d, ap (λ y. some (y, d)) e, ap (λ y. (ok y, write d w)) e)

  -- A statement that returned: it met its constraints, and its tables are the ones in force.
  pub stmt-ok :
      (f : Db → Option (A × Db)) (w : World) {a : A}
      → (stmt f w).0 ≡ ok a
      → (d : Db) × (f (view w) ≡ some (a, d)) × (stmt f w ≡ (ok a, write d (spend w)))
  unfolding stmt
  stmt-ok f w h = elim (Bool-cases (next_fault w.faults || w.aborted)) [
    | inl e ↦ absurd (let q = rw e at h in cc)
    | inr e ↦ rw e (answer-ok (f (view w)) (spend w) (rw e at h))
  ]

  pub query-ok :
      (f : Db → A) (w : World) {a : A}
      → (query f w).0 ≡ ok a
      → (f (view w) ≡ a) × ((query f w).1 ≡ write (view w) (spend w))
  unfolding query
  query-ok f w h =
      let (d, e, q) = stmt-ok (λ d. some (f d, d)) w h in (cc, let e' : d ≡ view w = cc in cc)

  pub run_in_tx-ok :
      (m : M A) (w : World) {a : A}
      → (run_in_tx m w).0 ≡ ok a
      → (out : Result A × World) × (m (record (spend w) { tx = some w.db; aborted = false }) ≡ out)
        × (out.0 ≡ ok a)
        × ((run_in_tx m w).1.db ≡ commit_db (working out.1.tx out.1.db) out.1.db)
  unfolding run_in_tx
  run_in_tx-ok m w h = elim (Bool-cases (next_fault w.faults)) [
    | inl e ↦ absurd (let q = rw e at h in cc)
    | inr e ↦ rw e (
        let out = m (record (spend w) { tx = some w.db; aborted = false }) in
        let (p, q) = finish-ok w out.0 out.1 (rw e at h) in (out, refl, p, q))
  ]
    where
      finish-ok :
          (w : World) (r : Result A) (v : World) {a : A}
          → (finish w (r, v)).0 ≡ ok a
          → (r ≡ ok a) × ((finish w (r, v)).1.db ≡ commit_db (working v.tx v.db) v.db)
      finish-ok w (err x) v h = absurd cc
      finish-ok w (ok x) v h = elim (Bool-cases (next_fault v.faults || v.aborted)) [
        | inl e ↦ absurd (let q = rw e at h in cc)
        | inr e ↦ rw e (let q = rw e at h in (q, refl))
      ]

  pub pure-ok : (x : A) (w : World) {a : A} → (pure x w).0 ≡ ok a → x ≡ a
  unfolding pure
  pure-ok x w h = cc

  answer_base-ok :
      (o : Option (A × Db)) (w : World) {a : A}
      → (answer_base o w).0 ≡ ok a
      → (d : Db) × (o ≡ some (a, d))
  answer_base-ok none w h = absurd cc
  answer_base-ok (some (x, d)) w h = (d, cc)

  -- A SELECT on `s.db` that returned read what is committed.
  pub base_query-ok : (f : Db → A) (w : World) {a : A} → (base_query f w).0 ≡ ok a → f w.db ≡ a
  unfolding base_query base_stmt
  base_query-ok f w h = elim (Bool-cases (next_fault w.faults)) [
    | inl e ↦ absurd (let q = rw e at h in cc)
    | inr e ↦ (let (d, p) = answer_base-ok (some (f w.db, w.db)) (spend w) (rw e at h) in cc)
  ]

-- What is written is what is read next.
pub view-write : (d : Db) (w : World) → view (write d w) ≡ d
view-write d w = elim (Option-cases w.tx) [ inl e ↦ rw e refl | inr (t, e) ↦ rw e refl ]

pub view-working : (v : World) → working v.tx v.db ≡ view v
view-working v = elim (Option-cases v.tx) [ inl e ↦ rw e refl | inr (t, e) ↦ rw e refl ]

-- The tables in force after a statement that returned.
pub stmt-view :
    {A : Type 0} (f : Db → Option (A × Db)) (w : World) {a : A}
    → (stmt f w).0 ≡ ok a
    → f (view w) ≡ some (a, view (stmt f w).1)
stmt-view f w {a = a} h =
    let (d, e, q) = stmt-ok f w h in
    e ∙ ap (λ x. some (a, x)) (sym (ap (λ r. view r.1) q ∙ view-write d (spend w)))

module _ {A : Type 0} where
  -- What a poll leaves in the tables, by what it returns.
  abbrev pub polled_db : Option A → World → Db
  polled_db none v = rollback_db (working v.tx v.db) v.db
  polled_db (some a) v = commit_db (working v.tx v.db) v.db

  finish_poll-ok :
      (w : World) (r : Result (Option A)) (v : World) {o : Option A}
      → (finish_poll w (r, v)).0 ≡ ok o
      → (r ≡ ok o) × ((finish_poll w (r, v)).1.db ≡ polled_db o v)
  finish_poll-ok w (err x) v h = absurd cc
  finish_poll-ok w (ok none) v {o = o} h = let e : none ≡ o = cc in (h, ap (λ y. polled_db y v) e)
  finish_poll-ok w (ok (some a)) v {o = o} h =
      elim (Bool-cases (next_fault v.faults || v.aborted)) [
        | inl e ↦ absurd (let q = rw e at h in cc)
        | inr e ↦
            (let q = rw e at h in let k : some a ≡ o = cc in rw e (q, ap (λ y. polled_db y v) k))
      ]

  pub poll_in_tx-ok :
      (m : M (Option A)) (w : World) {o : Option A}
      → (poll_in_tx m w).0 ≡ ok o
      → (out : Result (Option A) × World) × (m
            (record (spend w) { tx = some w.db; aborted = false })
          ≡ out)
        × (out.0 ≡ ok o)
        × ((poll_in_tx m w).1.db ≡ polled_db o out.1)
  unfolding poll_in_tx
  poll_in_tx-ok m w h = elim (Bool-cases (next_fault w.faults)) [
    | inl e ↦ absurd (let q = rw e at h in cc)
    | inr e ↦ rw e (
        let out = m (record (spend w) { tx = some w.db; aborted = false }) in
        let (p, q) = finish_poll-ok w out.0 out.1 (rw e at h) in (out, refl, p, q))
  ]

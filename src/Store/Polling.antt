-- ===== src/Store/Polling.antt =====
-- infrastructure/persistence/task_repository.go: what FindAndLockPending hands out.
pub mod Earliest
use antflow_server.Base.{
  ℕ, ◌+◌, ◌≤◌, Bool, true, false, ◌&&◌, ◌≡◌, ◌≢◌, ◌⊎◌, refl, ap, subst, sym, ◌∙◌, Option, none,
  some, List, [], ◌∷◌, String, str_eq, str_eq_refl, str_eq_iff, leb, ltb, leb→le, select, update,
  exists, find, Bool-cases, Option-cases, inl, inr, arith, if◌then◌else◌,
}
use antflow_server.Domain.{Task, State, created, running, Result, ok, err}
use antflow_server.Store.World.{
  Db, World, M, view, write, spend, gets, pure, query, stmt, ◌>>=◌, ◌>>◌, run_in_tx, commit_db,
  working, continue,
}
use antflow_server.Store.Polling.Earliest.{
  IsFirst, earliest-IsFirst, IsRow, earliest-IsRow, exists-IsFirst, Spares, earliest-Spares,
}
use antflow_server.Store.Inversion.{
  bind-ok, query-ok, stmt-ok, poll_in_tx-ok, polled_db, view-write, view-working,
}
use antflow_server.Store.Executions.{before}
use antflow_server.Store.Tasks.{
  is_eligible, is_due, earliest, earlier, lock, lock_row, locked, has_id, find_and_lock_pending,
}

gets-bind : {A B : Type 0} (f : World → A) (g : A → M B) (w : World) → (gets f >>= g) w ≡ g (f w) w
unfolding ◌>>=◌ gets
gets-bind f g w = refl

abbrev locked_tasks : ℕ → Task → List Task → List Task
locked_tasks now t ts = update (has_id t.id) (lock_row now (now + t.timeout_seconds)) ts

-- What a poll has done to the tasks, if it returned.
abbrev IsLocked : ℕ → List Task → Option Task → List Task → Option Task → Type 0
IsLocked now ts none ts' r = (r ≡ none) × (ts' ≡ ts)
IsLocked now ts (some t) ts' r = (r ≡ some (locked now t)) × (ts' ≡ locked_tasks now t ts)

lock-ok :
    (o : Option Task) (v : World) {r : Option Task}
    → (lock o v).0 ≡ ok r
    → IsLocked v.now (view v).tasks o (view (lock o v).1).tasks r
unfolding lock pure gets ◌>>=◌
lock-ok none v h = (cc, refl)
lock-ok (some t) v h =
    let f : Db → Option (Unit {0} × Db) =
      λ d. some (tt, record d { tasks = locked_tasks v.now t d.tasks }) in
    let g : Unit {0} → M (Option Task) = λ _. pure (some (locked v.now t)) in
    let (u, e, q) = bind-ok (stmt f) g v h in
    let (d, p, k) = stmt-ok f v e in
    let n : record (view v) { tasks = locked_tasks v.now t (view v).tasks } ≡ d = cc in
    let a = ap (λ x. x.0) q in
    (
      cc,
      ap (λ x. (view x.1).tasks) q
          ∙ ap (λ x. (view x.1).tasks) k
          ∙ ap (λ x. x.tasks) (view-write d (spend v) ∙ sym n),
    )

-- The tables that the poll leaves are the ones in force when it ends: it changes nothing where it
-- rolls back.
polled-tasks :
    (o : Option Task) (v : World) (r : Option Task)
    → (lock o v).0 ≡ ok r
    → v.db.tasks ≡ (view v).tasks
    → (polled_db r (lock o v).1).tasks ≡ (view (lock o v).1).tasks
unfolding lock pure
polled-tasks none v r h e =
    let q : none ≡ r = cc in subst (λ x. (polled_db x v).tasks ≡ (view v).tasks) q e
polled-tasks (some t) v r h e =
    let l = lock-ok (some t) v h in
    subst (λ x. (polled_db x (lock (some t) v).1).tasks ≡ (view (lock (some t) v).1).tasks)
      (sym l.0) (ap (λ x. x.tasks) (view-working (lock (some t) v).1))

abbrev poll_row : String → World → Option Task
poll_row queue w = earliest (select (is_eligible queue w.now) w.db.tasks)

-- A poll that returned has locked what it returns, the first of the eligible tasks.
poll-ok :
    (queue : String) (w : World) {r : Option Task}
    → (find_and_lock_pending queue w).0 ≡ ok r
    → IsLocked w.now w.db.tasks (poll_row queue w) (find_and_lock_pending queue w).1.db.tasks r
unfolding find_and_lock_pending gets ◌>>=◌
poll-ok queue w {r = r} h =
    let b : World = record (spend w) { tx = some w.db; aborted = false } in
    let f : Db → Option Task = λ d. earliest (select (is_eligible queue w.now) d.tasks) in
    let (out, p, k, d) = poll_in_tx-ok _ w h in
    let (o, e, q) = bind-ok (query f) lock b (ap (λ x. x.0) p ∙ k) in
    let (m, n) = query-ok f b e in
    let v : World = write w.db (spend b) in
    let l = ap (lock o) n in
    let out_is : lock o v ≡ out = sym l ∙ sym q ∙ p in
    let done = lock-ok o v (ap (λ x. x.0) out_is ∙ k) in
    let kept = polled-tasks o v r (ap (λ x. x.0) out_is ∙ k) refl in
    let tasks_are = ap (λ x. x.tasks) d ∙ ap (λ x. (polled_db r x.1).tasks) (sym out_is) ∙ kept in
    subst (λ x. IsLocked w.now w.db.tasks x (find_and_lock_pending queue w).1.db.tasks r) (sym m)
      (subst (λ x. IsLocked w.now w.db.tasks o x r) (sym tasks_are) done)

pub poll_lem :
    (queue : String) (w : World) (r : Option Task)
    → (find_and_lock_pending queue w).0 ≡ ok r
    → let ts' = (find_and_lock_pending queue w).1.db.tasks in
      ((r ≡ none) × (exists (is_eligible queue w.now) w.db.tasks ≡ false) × (ts' ≡ w.db.tasks))
      ⊎ ((u : Task) × (r ≡ some (locked w.now u))
          × IsRow u w.db.tasks
          × (is_eligible queue w.now u ≡ true)
          × IsFirst (is_eligible queue w.now) u w.db.tasks
          × (ts' ≡ update (has_id u.id) (lock_row w.now (w.now + u.timeout_seconds)) w.db.tasks))
poll_lem queue w r h =
    let ts' = (find_and_lock_pending queue w).1.db.tasks in
    elim (Option-cases (poll_row queue w)) [
      | inl e ↦
          (let l = subst (λ x. IsLocked w.now w.db.tasks x ts' r) e (poll-ok queue w h) in
            inl (l.0, exists-IsFirst (is_eligible queue w.now) w.db.tasks e, l.1))
      | inr (u, e) ↦
          (let l = subst (λ x. IsLocked w.now w.db.tasks x ts' r) e (poll-ok queue w h) in
            let f = earliest-IsFirst (is_eligible queue w.now) w.db.tasks e in
            inr (u, l.0, earliest-IsRow (is_eligible queue w.now) w.db.tasks e, f.0, f.1, l.1))
    ]

locked_row-not_eligible :
    (queue : String) (now at until : ℕ) (x : Task)
    → now ≤ until
    → is_eligible queue now (lock_row at until x) ≡ false
locked_row-not_eligible queue now at until x h = ground arith

locked-Spares :
    (id queue : String) (now at until : ℕ) (xs : List Task)
    → now ≤ until
    → Spares (is_eligible queue now) (has_id id) (update (has_id id) (lock_row at until) xs)
locked-Spares id queue now at until [] h = tt
locked-Spares id queue now at until (x ∷ xs) h = elim (Bool-cases (str_eq x.id id)) [
  | inl e ↦ rw e (
    (λ _. locked_row-not_eligible queue now at until x h),
    locked-Spares id queue now at until xs h,
  )
  | inr e ↦ rw e ((λ k. absurd (let q = rw e at k in cc)), locked-Spares id queue now at until xs h)
]

-- Sparing is a matter of the rows that `c` is true of.
Spares-select : (p c : Task → Bool) (xs : List Task) → Spares p c xs → Spares p c (select c xs)
Spares-select p c [] s = tt
Spares-select p c (x ∷ xs) s = elim (Bool-cases (c x)) [
  | inl e ↦ rw e (s.0, Spares-select p c xs s.1)
  | inr e ↦ rw e (Spares-select p c xs s.1)
]

select-Spares : (p c : Task → Bool) (xs : List Task) → Spares p c (select c xs) → Spares p c xs
select-Spares p c [] s = tt
select-Spares p c (x ∷ xs) s = elim (Bool-cases (c x)) [
  | inl e ↦ (let t = rw e at s in (t.0, select-Spares p c xs t.1))
  | inr e ↦ ((λ k. absurd cc), select-Spares p c xs (rw e at s))
]

-- No task is handed out twice while its lock lasts: after a poll that returned the task `t`, as long
-- as the row of `t` stays as the poll left it, whatever becomes of the other tasks, and the time is
-- within the task's timeout, no poll of any queue returns a task of that id.
pub poll-poll :
    (queue other : String) (w v : World) (t u : Task)
    → (find_and_lock_pending queue w).0 ≡ ok (some t)
    → select (has_id t.id) v.db.tasks
      ≡ select (has_id t.id) (find_and_lock_pending queue w).1.db.tasks
    → v.now ≤ w.now + t.timeout_seconds
    → (find_and_lock_pending other v).0 ≡ ok (some u)
    → u.id ≢ t.id
poll-poll queue other w v t u h k n h' e = elim (poll_lem queue w (some t) h) [
  | inl (a, _, _) ↦ absurd cc
  | inr (x, a, _, b, c, d) ↦ elim (Option-cases (poll_row other v)) [
    | inl m ↦
        (let l =
            subst
              (λ o. IsLocked v.now v.db.tasks o (find_and_lock_pending other v).1.db.tasks (some u))
              m (poll-ok other v h') in
          absurd (let l0 = l.0 in cc))
    | inr (y, m) ↦
        (let l =
            subst
              (λ o. IsLocked v.now v.db.tasks o (find_and_lock_pending other v).1.db.tasks (some u))
              m (poll-ok other v h') in
          let ids : locked w.now x ≡ t = (let a' = a in cc) in
          let same : u ≡ locked v.now y = (let l0 = l.0 in cc) in
          let s =
            locked-Spares x.id other v.now w.now (w.now + x.timeout_seconds) w.db.tasks
              (rw (ap (λ o. o.timeout_seconds) ids) n) in
          let s' =
            let k' =
              subst
                (λ i.
                  select (has_id i) v.db.tasks
                  ≡ select (has_id i) (find_and_lock_pending queue w).1.db.tasks)
                (sym (ap (λ o. o.id) ids)) k in
            select-Spares (is_eligible other v.now) (has_id x.id) v.db.tasks (
              subst (λ ts. Spares (is_eligible other v.now) (has_id x.id) ts)
                (sym (k' ∙ ap (select (has_id x.id)) d))
                (Spares-select (is_eligible other v.now) (has_id x.id) _ s)) in
          let f = earliest-Spares (is_eligible other v.now) (has_id x.id) v.db.tasks s' m in
          let y_is = sym (ap (λ o. o.id) same) ∙ e ∙ sym (ap (λ o. o.id) ids) in
          let g = (str_eq_iff y.id x.id).1 y_is in absurd cc)
  ]
]

-- ===== src/Store/Frame/Rules.antt =====
-- The rules for keeping a frame, one for each way to build an action.
use antflow_server.Base.{
  ℕ, ◌≤◌, arith, Bool, true, false, ◌||◌, ◌≡◌, refl, Option, none, some, String, if◌then◌else◌,
  Bool-cases, inl, inr,
}
use antflow_server.Domain.{Err, Result, ok, err}
use antflow_server.Store.World.{
  Db, World, M, later, pure, throw, lift, gets, attempt, continue, ◌>>=◌, wrapping, ignore,
  or_throw, view, write_at, spend, next_fault, answer, stmt, query, answer_base, base_stmt,
  base_query, commit_db, rollback_db, working, close, finish, finish_poll, run_in_tx, poll_in_tx,
  new_uuid, drain, notify,
}
use antflow_server.Store.Frame.{Frame}

later_ge : (m n : ℕ) → m ≤ later m n
later_ge m n = ground arith

module _ (F : Frame) where
  open F use {Rel}

  abbrev pub RelTx : Option Db → Option Db → Type 0
  RelTx none none = Unit {0}
  RelTx none (some u) = ⊥
  RelTx (some t) none = ⊥
  RelTx (some t) (some u) = Rel t u

  pub record Follows (w w' : World) : Type 0 where
    pub base : Rel w.db w'.db
    pub inner : RelTx w.tx w'.tx

  pub record Keeps {A : Type 0} (m : M A) : Type 0 where
    pub at : (w : World) → Follows w (m w).1

  RelTx-refl : (t : Option Db) → RelTx t t
  RelTx-refl none = tt
  RelTx-refl (some t) = F.rel_refl t

  RelTx-trans : (s t u : Option Db) → RelTx s t → RelTx t u → RelTx s u
  RelTx-trans none none none p q = tt
  RelTx-trans none none (some u) p q = q
  RelTx-trans none (some t) u p q = absurd p
  RelTx-trans (some s) none u p q = absurd p
  RelTx-trans (some s) (some t) none p q = q
  RelTx-trans (some s) (some t) (some u) p q = F.rel_trans s t u p q

  -- `w` may differ from `w'` in all but the tables.
  pub Follows-refl : (w w' : World) → w'.db ≡ w.db → w'.tx ≡ w.tx → Follows w w'
  Follows-refl w w' p q = record { base = rw p (F.rel_refl w.db); inner = rw q (RelTx-refl w.tx) }

  pub Follows-trans : (a b c : World) → Follows a b → Follows b c → Follows a c
  Follows-trans a b c p q = record {
    base = F.rel_trans a.db b.db c.db p.base q.base;
    inner = RelTx-trans a.tx b.tx c.tx p.inner q.inner;
  }

  module _ {A : Type 0} where
    pub Keeps-pure : (a : A) → Keeps (pure a)
    unfolding pure
    Keeps-pure a = record { at = λ w. Follows-refl w w refl refl }

    pub Keeps-throw : (e : Err) → Keeps (throw {A = A} e)
    unfolding throw
    Keeps-throw e = record { at = λ w. Follows-refl w w refl refl }

    pub Keeps-lift : (r : Result A) → Keeps (lift r)
    unfolding lift
    Keeps-lift r = record { at = λ w. Follows-refl w w refl refl }

    pub Keeps-gets : (f : World → A) → Keeps (gets f)
    unfolding gets
    Keeps-gets f = record { at = λ w. Follows-refl w w refl refl }

    pub Keeps-attempt : (m : M A) → Keeps m → Keeps (attempt m)
    unfolding attempt
    Keeps-attempt m k = record { at = λ w. k.at w }

    pub Keeps-wrapping : (s : String) (m : M A) → Keeps m → Keeps (wrapping s m)
    unfolding wrapping
    Keeps-wrapping s m k = record { at = λ w. k.at w }

    pub Keeps-or_throw : (e : Err) (o : Option A) → Keeps (or_throw e o)
    unfolding or_throw
    Keeps-or_throw e none = Keeps-throw e
    Keeps-or_throw e (some a) = Keeps-pure a

    pub Keeps-if : (b : Bool) (m n : M A) → Keeps m → Keeps n → Keeps (if b then m else n)
    Keeps-if true m n k l = k
    Keeps-if false m n k l = l

  module _ {A B : Type 0} where
    continue-Follows :
        (v w : World) (r : Result A) (f : A → M B)
        → Follows v w
        → ((a : A) → Keeps (f a))
        → Follows v (continue r f w).1
    continue-Follows v w (ok a) f h k = Follows-trans v w _ h ((k a).at w)
    continue-Follows v w (err e) f h k = h

    pub Keeps-bind : (m : M A) (f : A → M B) → Keeps m → ((a : A) → Keeps (f a)) → Keeps (m >>= f)
    unfolding ◌>>=◌
    Keeps-bind m f km kf = record { at = λ w. continue-Follows w (m w).1 (m w).0 f (km.at w) kf }

  module _ {A B : Type 0} where
    pub continue_at-Follows :
        (v w : World) (r : Result A) (f : A → M B)
        → Follows v w
        → ((a : A) → r ≡ ok a → Follows w (f a w).1)
        → Follows v (continue r f w).1
    continue_at-Follows v w (ok a) f h k = Follows-trans v w _ h (k a refl)
    continue_at-Follows v w (err e) f h k = h

    -- The rest of the block may use what the first action left where it succeeded.
    pub Keeps-bind_at :
        (m : M A) (f : A → M B)
        → Keeps m
        → ((w : World) (a : A) → (m w).0 ≡ ok a → Follows (m w).1 (f a (m w).1).1)
        → Keeps (m >>= f)
    unfolding ◌>>=◌
    Keeps-bind_at m f km kf = record {
      at = λ w. continue_at-Follows w (m w).1 (m w).0 f (km.at w) (kf w);
    }

    pub bind-Follows :
        (v w : World) (m : M A) (f : A → M B)
        → Follows v (m w).1
        → ((a : A) → Keeps (f a))
        → Follows v ((m >>= f) w).1
    unfolding ◌>>=◌
    bind-Follows v w m f h k = continue-Follows v (m w).1 (m w).0 f h k

  write-Follows :
      (t : Option Db) (w : World) (d : Db) → w.tx ≡ t → Rel (view w) d → Follows w (write_at t d w)
  write-Follows none w d e h = record { base = rw e at h; inner = RelTx-refl w.tx }
  write-Follows (some t) w d e h = record { base = F.rel_refl w.db; inner = rw e (rw e at h) }

  -- Past the statement's own fault flag.
  spend-Follows : (w w' : World) → Follows (spend w) w' → Follows w w'
  spend-Follows w w' h = record { base = h.base; inner = h.inner }

  pub Keeps-new_uuid : Keeps new_uuid
  unfolding new_uuid
  Keeps-new_uuid = record { at = λ w. Follows-refl w _ refl refl }

  pub Keeps-drain : (id : String) → Keeps (drain id)
  unfolding drain
  Keeps-drain id = record { at = λ w. Follows-refl w _ refl refl }

  pub Keeps-notify : (queue : String) → Keeps (notify queue)
  unfolding notify
  Keeps-notify queue = record { at = λ w. Follows-refl w _ refl refl }

  -- The tables that a transaction leaves, by what it did to its copy and to the committed ones.
  abandon-Follows :
      (w w' : World)
      → Rel w.db w'.db
      → Follows w (close w (rollback_db (working w'.tx w'.db) w'.db) w')
  abandon-Follows w w' h = record {
    base = F.rel_trans _ _ _ h (F.on_sequence w'.db _ (later_ge w'.db.event_seq _));
    inner = RelTx-refl w.tx;
  }

  working-Rel :
      (d : Db) (t : Option Db) (d' : Db) → RelTx (some d) t → Rel d (commit_db (working t d') d')
  working-Rel d none d' h = absurd h
  working-Rel d (some t) d' h =
      F.rel_trans d t _ h (F.on_checkpoints t d'.checkpoints d'.checkpoint_seq)

  module _ {A : Type 0} where
    pub Keeps-ignore : (m : M A) → Keeps m → Keeps (ignore m)
    unfolding ignore
    Keeps-ignore m k =
        Keeps-bind (attempt m) (λ r. pure tt) (Keeps-attempt m k) (λ r. Keeps-pure tt)

    -- A statement is safe at a database if it relates that to what it writes.
    abbrev pub IsSafe : Db → Option (A × Db) → Type 0
    IsSafe d none = Unit {0}
    IsSafe d (some (a, d')) = Rel d d'

    answer-Follows :
        (w : World) (o : Option (A × Db)) → IsSafe (view w) o → Follows w (answer o w).1
    answer-Follows w none h = Follows-refl w _ refl refl
    answer-Follows w (some (a, d)) h = write-Follows w.tx w d refl h

    pub Keeps-stmt_at :
        (f : Db → Option (A × Db)) (w : World)
        → IsSafe (view w) (f (view w))
        → Follows w (stmt f w).1
    unfolding stmt
    Keeps-stmt_at f w h = elim (Bool-cases (next_fault w.faults || w.aborted)) [
      | inl e ↦ rw e (Follows-refl w _ refl refl)
      | inr e ↦ rw e (spend-Follows w _ (answer-Follows (spend w) (f (view w)) h))
    ]

    pub Keeps-stmt : (f : Db → Option (A × Db)) → ((d : Db) → IsSafe d (f d)) → Keeps (stmt f)
    Keeps-stmt f h = record { at = λ w. Keeps-stmt_at f w (h (view w)) }

    answer_base-Follows :
        (w : World) (o : Option (A × Db)) → IsSafe w.db o → Follows w (answer_base o w).1
    answer_base-Follows w none h = Follows-refl w _ refl refl
    answer_base-Follows w (some (a, d)) h = record { base = h; inner = RelTx-refl w.tx }

    pub Keeps-base_stmt :
        (f : Db → Option (A × Db)) → ((d : Db) → IsSafe d (f d)) → Keeps (base_stmt f)
    unfolding base_stmt
    Keeps-base_stmt f h = record {
      at = λ w. elim (Bool-cases (next_fault w.faults)) [
        | inl e ↦ rw e (Follows-refl w _ refl refl)
        | inr e ↦ rw e (spend-Follows w _ (answer_base-Follows (spend w) (f w.db) (h w.db)))
      ];
    }

    pub Keeps-query : (f : Db → A) → Keeps (query f)
    unfolding query
    Keeps-query f = Keeps-stmt (λ d. some (f d, d)) F.rel_refl

    pub Keeps-base_query : (f : Db → A) → Keeps (base_query f)
    unfolding base_query
    Keeps-base_query f = Keeps-base_stmt (λ d. some (f d, d)) F.rel_refl

    finish-Follows :
        (w : World) (r : Result A) (w' : World)
        → Rel w.db w'.db
        → RelTx (some w.db) w'.tx
        → Follows w (finish w (r, w')).1
    finish-Follows w (err e) w' b i = abandon-Follows w w' b
    finish-Follows w (ok a) w' b i = elim (Bool-cases (next_fault w'.faults || w'.aborted)) [
      | inl e ↦ rw e (abandon-Follows w (spend w') b)
      | inr e ↦ rw e (record { base = working-Rel w.db w'.tx w'.db i; inner = RelTx-refl w.tx })
    ]

    pub Keeps-run_in_tx : (m : M A) → Keeps m → Keeps (run_in_tx m)
    unfolding run_in_tx
    Keeps-run_in_tx m k = record {
      at = λ w. elim (Bool-cases (next_fault w.faults)) [
        | inl e ↦ rw e (Follows-refl w _ refl refl)
        | inr e ↦
            let out = m (record (spend w) { tx = some w.db; aborted = false }) in
            let h = k.at (record (spend w) { tx = some w.db; aborted = false }) in
            rw e (finish-Follows w out.0 out.1 h.base h.inner)
      ];
    }

  module _ {A : Type 0} where
    finish_poll-Follows :
        (w : World) (r : Result (Option A)) (w' : World)
        → F.Rel w.db w'.db
        → RelTx (some w.db) w'.tx
        → Follows w (finish_poll w (r, w')).1
    finish_poll-Follows w (err e) w' b i = finish-Follows {A = Option A} w (err e) w' b i
    finish_poll-Follows w (ok (some a)) w' b i =
        finish-Follows {A = Option A} w (ok (some a)) w' b i
    finish_poll-Follows w (ok none) w' b i = abandon-Follows w w' b

    pub Keeps-poll_in_tx : (m : M (Option A)) → Keeps m → Keeps (poll_in_tx m)
    unfolding poll_in_tx
    Keeps-poll_in_tx m k = record {
      at = λ w. elim (Bool-cases (next_fault w.faults)) [
        | inl e ↦ rw e (Follows-refl w _ refl refl)
        | inr e ↦
            let out = m (record (spend w) { tx = some w.db; aborted = false }) in
            let h = k.at (record (spend w) { tx = some w.db; aborted = false }) in
            rw e (finish_poll-Follows w out.0 out.1 h.base h.inner)
      ];
    }

pub ruleset keeps_rules = (
  Keeps-pure, Keeps-throw, Keeps-lift, Keeps-gets, Keeps-attempt, Keeps-wrapping, Keeps-ignore,
  Keeps-or_throw, Keeps-if, Keeps-bind, Keeps-query, Keeps-base_query, Keeps-run_in_tx,
  Keeps-poll_in_tx, Keeps-new_uuid, Keeps-drain, Keeps-notify,
)

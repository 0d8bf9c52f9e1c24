-- ===== src/Store/Leaves.antt =====
-- What an action that returned a value leaves in the tables in force, from what it found there: one
-- rule for each way to build an action.
use antflow_server.Base.{
  Bool, true, false, ◌≡◌, refl, sym, ◌∙◌, ap, subst, Option, some, String, Option-cases, inl, inr,
}
use mathlib.Core.Option.{some-injective}
use antflow_server.Domain.{ok}
use antflow_server.Store.World.{
  Db, World, M, pure, gets, attempt, wrapping, ◌>>=◌, view, stmt, new_uuid, run_in_tx, commit_db,
  insert_if,
}
use antflow_server.Store.Inversion.{
  bind-ok, wrapping-ok, stmt-view, run_in_tx-ok, pure-ok, view-working,
}
use antflow_server.Store.Frame.{Frame}
use antflow_server.Store.Frame.Rules.{Follows, Keeps}

pub record Leaves {A : Type 0} (P : Db → Type 0) (m : M A) (Q : A → Db → Type 0) : Type 0 where
  pub at : (w : World) (a : A) → P (view w) → (m w).0 ≡ ok a → Q a (view (m w).1)

module _ {A : Type 0} (P : Db → Type 0) where
  pub Leaves-pure : (a : A) (Q : A → Db → Type 0) → ((d : Db) → P d → Q a d) → Leaves P (pure a) Q
  unfolding pure
  Leaves-pure a Q k = record { at = λ w b p h. subst (λ x. Q x (view w)) (pure-ok a w h) (k _ p) }

  pub Leaves-gets : (f : World → A) → Leaves P (gets f) (λ a. P)
  unfolding gets
  Leaves-gets f = record { at = λ w a p h. p }

  pub Leaves-attempt :
      (m : M A) → ((w : World) → P (view w) → P (view (m w).1)) → Leaves P (attempt m) (λ a. P)
  unfolding attempt
  Leaves-attempt m k = record { at = λ w a p h. k w p }

  pub Leaves-wrapping :
      (s : String) (m : M A) (Q : A → Db → Type 0) → Leaves P m Q → Leaves P (wrapping s m) Q
  Leaves-wrapping s m Q k = record {
    at = λ w a p h.
        (let (e, q) = wrapping-ok s m w h in subst (λ v. Q a (view v)) (sym q) (k.at w a p e));
  }

  -- A statement that returned met its constraints.
  pub Leaves-stmt :
      (f : Db → Option (A × Db)) (Q : A → Db → Type 0)
      → ((d e : Db) (a : A) → P d → f d ≡ some (a, e) → Q a e)
      → Leaves P (stmt f) Q
  Leaves-stmt f Q k = record { at = λ w a p h. k (view w) _ a p (stmt-view f w h) }

  pub Leaves-weaken :
      (m : M A) (Q R : A → Db → Type 0)
      → ((a : A) (d : Db) → Q a d → R a d)
      → Leaves P m Q
      → Leaves P m R
  Leaves-weaken m Q R k l = record { at = λ w a p h. k a _ (l.at w a p h) }

pub Leaves-new_uuid : (P : Db → Type 0) → Leaves P new_uuid (λ a. P)
unfolding new_uuid
Leaves-new_uuid P = record { at = λ w a p h. p }

module _ {A B : Type 0} where
  pub Leaves-bind :
      (P : Db → Type 0) (m : M A) (f : A → M B) (Q : A → Db → Type 0) (R : B → Db → Type 0)
      → Leaves P m Q
      → ((a : A) → Leaves (Q a) (f a) R)
      → Leaves P (m >>= f) R
  Leaves-bind P m f Q R k l = record {
    at = λ w b p h.
        (let (a, e, q) = bind-ok m f w h in
          subst (λ r. R b (view r.1)) (sym q)
            ((l a).at (m w).1 b (k.at w a p e) (ap (λ r. r.0) (sym q) ∙ h)));
  }

insert_if-some :
    (b : Bool) (d e : Db) (u : Unit {0}) → insert_if b d ≡ some (u, e) → (b ≡ true) × (d ≡ e)
insert_if-some true d e u h = (refl, ap (λ x. x.1) (some-injective (tt, d) _ h))
insert_if-some false d e u h = absurd cc

-- An INSERT that returned.
pub Leaves-insert :
    (P : Db → Type 0) (fits : Db → Bool) (f : Db → Db) (Q : Db → Type 0)
    → ((d : Db) → P d → fits d ≡ true → Q (f d))
    → Leaves P (stmt (λ d. insert_if (fits d) (f d))) (λ u. Q)
Leaves-insert P fits f Q k =
    Leaves-stmt P (λ d. insert_if (fits d) (f d)) (λ u. Q)
      λ d e u p h. (let (b, q) = insert_if-some (fits d) (f d) e u h in subst Q q (k d p b))

module _ (F : Frame) where
  -- The tables in force are related too.
  view-Rel : (w v : World) → Follows F w v → F.Rel (view w) (view v)
  view-Rel w v f = elim (Option-cases w.tx) [
    | inl e ↦ elim (Option-cases v.tx) [
      | inl k ↦ rw e (rw k f.base)
      | inr (u, k) ↦ absurd (let i = f.inner in rw e at (rw k at i))
    ]
    | inr (t, e) ↦ elim (Option-cases v.tx) [
      | inl k ↦ absurd (let i = f.inner in rw e at (rw k at i))
      | inr (u, k) ↦ rw e (rw k (rw e at (rw k at f.inner)))
    ]
  ]

  pub Keeps-view : {A : Type 0} (m : M A) → Keeps F m → (w : World) → F.Rel (view w) (view (m w).1)
  Keeps-view m k w = view-Rel w (m w).1 (k.at w)

-- A transaction that returned has committed what its body left.
pub Leaves-run_in_tx :
    {A : Type 0} (P : Db → Type 0) (m : M A) (Q : A → Db → Type 0)
    → Leaves P m Q
    → (w : World) (a : A) → P w.db
    → (run_in_tx m w).0 ≡ ok a
    → (d e : Db) × Q a d × ((run_in_tx m w).1.db ≡ commit_db d e)
Leaves-run_in_tx P m Q k w a p h =
    let (out, e, r, c) = run_in_tx-ok m w h in
    let q = k.at _ a p (ap (λ x. x.0) e ∙ r) in
    let v = subst (λ x. Q a (view x.1)) e q in
    (view out.1, out.1.db, v, c ∙ ap (λ d. commit_db d out.1.db) (view-working out.1))

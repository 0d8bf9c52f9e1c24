-- ===== src/Store/Returns.antt =====
-- What holds of the value of an action, whenever it returns one.
use antflow_server.Base.{◌≡◌, ap, subst, sym, ◌∙◌, Option, some, String}
use antflow_server.Domain.{Err, ok}
use antflow_server.Store.World.{
  Db, World, M, pure, ◌>>=◌, wrapping, or_throw, base_query, run_in_tx,
}
use antflow_server.Store.Inversion.{
  bind-ok, pure-ok, wrapping-ok, or_throw-ok, base_query-ok, run_in_tx-ok,
}

pub record Returns {A : Type 0} (P : A → Type 0) (m : M A) : Type 0 where
  pub at : (w : World) (a : A) → (m w).0 ≡ ok a → P a

module _ {A : Type 0} (P : A → Type 0) where
  pub Returns-pure : (a : A) → P a → Returns P (pure a)
  Returns-pure a p = record { at = λ w b h. subst P (pure-ok a w h) p }

  pub Returns-wrapping : (s : String) (m : M A) → Returns P m → Returns P (wrapping s m)
  Returns-wrapping s m k = record { at = λ w a h. k.at w a (wrapping-ok s m w h).0 }

  pub Returns-or_throw :
      (e : Err) (o : Option A) → ((a : A) → o ≡ some a → P a) → Returns P (or_throw e o)
  Returns-or_throw e o k = record { at = λ w a h. k a (or_throw-ok e o w h).0 }

  pub Returns-base_query : (f : Db → A) → ((d : Db) → P (f d)) → Returns P (base_query f)
  Returns-base_query f k = record { at = λ w a h. subst P (base_query-ok f w h) (k w.db) }

  pub Returns-run_in_tx : (m : M A) → Returns P m → Returns P (run_in_tx m)
  Returns-run_in_tx m k = record {
    at = λ w a h. (let (out, p, q, _) = run_in_tx-ok m w h in k.at _ a (ap (λ x. x.0) p ∙ q));
  }

module _ {A B : Type 0} (P : B → Type 0) where
  pub Returns-after :
      (Q : A → Type 0) (m : M A) (f : A → M B)
      → Returns Q m
      → ((a : A) → Q a → Returns P (f a))
      → Returns P (m >>= f)
  Returns-after Q m f k l = record {
    at = λ w b h.
        (let (a, e, q) = bind-ok m f w h in
          (l a (k.at w a e)).at (m w).1 b (ap (λ x. x.0) (sym q) ∙ h));
  }

  pub Returns-bind : (m : M A) (f : A → M B) → ((a : A) → Returns P (f a)) → Returns P (m >>= f)
  Returns-bind m f l = Returns-after (λ a. Unit {0}) m f (record { at = λ w a h. tt }) (λ a _. l a)

-- ===== src/Broker/Channels.antt =====
-- usecase/broker.go: any sequence of calls on a broker.
pub mod Reachable
use antflow_server.Base.{
  ℕ, ◌<◌, true, false, ◌||◌, ◌≡◌, ◌⊎◌, refl, List, [], ◌∷◌, ◌++◌, String, str_eq, str_eq_iff,
  str_eq_refl, ◌≢◌, ◌==◌, Bool-cases, inl, inr, arith,
}
use antflow_server.Broker.{
  TaskBroker, new_task_broker, notify, subscribe, unsubscribe, receive, member, remove_first,
  set_queue,
}

-- A broker that calls can have made, the closure of a stream at most once per channel or more.
pub data IsReachable : TaskBroker → Type 0 where
  initial : IsReachable new_task_broker
  subscribed : (b : TaskBroker) (q : String) → IsReachable b → IsReachable (subscribe q b).1
  notified : (b : TaskBroker) (q : String) → IsReachable b → IsReachable (notify q b)
  unsubscribed :
      (b : TaskBroker) (q : String) (c : ℕ) → IsReachable b → IsReachable (unsubscribe q c b)
  received : (b : TaskBroker) (c : ℕ) → IsReachable b → IsReachable (receive c b).1

abbrev pub Distinct : List ℕ → Type 0
Distinct [] = Unit {0}
Distinct (c ∷ cs) = (member c cs ≡ false) × Distinct cs

pub record IsSound (b : TaskBroker) : Type 0 where
  pub bounded : (q : String) (c : ℕ) → member c (b.queues q) ≡ true → c < b.next_channel
  pub distinct : (q : String) → Distinct (b.queues q)
  pub alone :
      (q r : String) (c : ℕ) → member c (b.queues q) ≡ true → member c (b.queues r) ≡ true → q ≡ r
  pub is_open : (q : String) (c : ℕ) → member c (b.queues q) ≡ true → b.closed c ≡ false
  pub fresh : (c : ℕ) → b.closed c ≡ true → c < b.next_channel

pub member-append : (c x : ℕ) (cs : List ℕ) → member c (cs ++ x ∷ []) ≡ (member c cs || x == c)
member-append c x [] = ground arith
member-append c x (y ∷ cs) = ground (arith, member-append c x cs)

pub Distinct-append :
    (x : ℕ) (cs : List ℕ) → member x cs ≡ false → Distinct cs → Distinct (cs ++ x ∷ [])
Distinct-append x [] h d = (refl, tt)
Distinct-append x (y ∷ cs) h d =
    (ground (arith, member-append y x cs), Distinct-append x cs (ground arith) d.1)

pub member-remove :
    (c x : ℕ) (cs : List ℕ) → member x (remove_first c cs) ≡ true → member x cs ≡ true
member-remove c x [] h = h
member-remove c x (y ∷ cs) h = ground (arith, member-remove c x cs)

pub member-removed : (c : ℕ) (cs : List ℕ) → Distinct cs → member c (remove_first c cs) ≡ false
member-removed c [] d = refl
member-removed c (y ∷ cs) d = ground (arith, member-removed c cs d.1, d.0)

pub Distinct-remove : (c : ℕ) (cs : List ℕ) → Distinct cs → Distinct (remove_first c cs)
Distinct-remove c [] d = tt
Distinct-remove c (y ∷ cs) d = elim (Bool-cases (y == c)) [
  | inl e ↦ rw e d.1
  | inr e ↦ rw e (elim (Bool-cases (member y (remove_first c cs))) [
    | inl m ↦ absurd (let h = member-remove c y cs m in let k = d.0 in ground arith)
    | inr m ↦ (m, Distinct-remove c cs d.1)
  ])
]

pub set-member :
    (q : String) (cs : List ℕ) (m : String → List ℕ) (r : String) (c : ℕ)
    → member c (set_queue q cs m r) ≡ true
    → ((r ≡ q) × (member c cs ≡ true)) ⊎ (member c (m r) ≡ true)
set-member q cs m r c h = elim (Bool-cases (str_eq r q)) [
  | inl e ↦ inl ((str_eq_iff r q).0 e, rw e at h)
  | inr e ↦ inr (rw e at h)
]

pub set-Distinct :
    (q : String) (cs : List ℕ) (m : String → List ℕ)
    → Distinct cs
    → ((r : String) → Distinct (m r))
    → (r : String) → Distinct (set_queue q cs m r)
set-Distinct q cs m h k r = elim (Bool-cases (str_eq r q)) [ inl e ↦ rw e h | inr e ↦ rw e (k r) ]

pub initial-IsSound : IsSound new_task_broker
unfolding new_task_broker
initial-IsSound = record {
  bounded = λ q c h. absurd cc;
  distinct = λ q. tt;
  alone = λ q r c h k. absurd cc;
  is_open = λ q c h. refl;
  fresh = λ c h. absurd cc;
}

pub notify-IsSound : (b : TaskBroker) (q : String) → IsSound b → IsSound (notify q b)
unfolding notify
notify-IsSound b q s = record {
  bounded = s.bounded;
  distinct = s.distinct;
  alone = s.alone;
  is_open = s.is_open;
  fresh = s.fresh;
}

pub receive-IsSound : (b : TaskBroker) (c : ℕ) → IsSound b → IsSound (receive c b).1
unfolding receive
receive-IsSound b c s = record {
  bounded = s.bounded;
  distinct = s.distinct;
  alone = s.alone;
  is_open = s.is_open;
  fresh = s.fresh;
}

-- ===== src/Broker/Channels/Reachable.antt =====
-- usecase/broker.go: every call on a broker keeps its channels sound.
use antflow_server.Base.{
  ℕ, true, false, ◌||◌, ◌≡◌, ◌⊎◌, refl, List, [], ◌∷◌, ◌++◌, String, str_eq, str_eq_iff,
  str_eq_refl, ◌≢◌, ◌==◌, Bool-cases, inl, inr, arith,
}
use antflow_server.Broker.{
  TaskBroker, notify, subscribe, unsubscribe, receive, member, remove_first, set_queue,
}
use antflow_server.Broker.Channels.{
  initial, subscribed, notified, unsubscribed, received, Distinct, Distinct-append, Distinct-remove,
  IsReachable, IsSound, initial-IsSound, member-append, member-remove, member-removed,
  notify-IsSound, receive-IsSound, set-Distinct, set-member,
}

-- The new channel is on no list.
new-member : (b : TaskBroker) (q : String) → IsSound b → member b.next_channel (b.queues q) ≡ false
new-member b q s = elim (Bool-cases (member b.next_channel (b.queues q))) [
  | inl e ↦ absurd (let h = s.bounded q b.next_channel e in omega arith)
  | inr e ↦ e
]

subscribe-IsSound : (b : TaskBroker) (q : String) → IsSound b → IsSound (subscribe q b).1
unfolding subscribe
subscribe-IsSound b q s =
    let n = b.next_channel in
    let cs = b.queues q ++ n ∷ [] in
    let old : (r : String) (c : ℕ)
        → member c (set_queue q cs b.queues r) ≡ true
        → (member c (b.queues r) ≡ true) ⊎ ((r ≡ q) × (c ≡ n)) =
      λ r c h. elim (set-member q cs b.queues r c h) [
        | inl (e, k) ↦ elim (Bool-cases (member c (b.queues q))) [
          | inl m ↦ inl (rw e m)
          | inr m ↦ inr (e, ground (arith, member-append c n (b.queues q)))
        ]
        | inr k ↦ inl k
      ] in
    record {
      bounded = λ r c h. elim (old r c h) [
        | inl k ↦ (let m = s.bounded r c k in omega arith)
        | inr (e, k) ↦ omega arith
      ];
      distinct =
          set-Distinct q cs b.queues
            (Distinct-append n (b.queues q) (new-member b q s) (s.distinct q)) s.distinct;
      alone = λ r t c h k. elim (old r c h) [
        | inl h' ↦ elim (old t c k) [
          | inl k' ↦ s.alone r t c h' k'
          | inr (e, k') ↦ absurd (let m = s.bounded r c h' in omega arith)
        ]
        | inr (e, h') ↦ elim (old t c k) [
          | inl k' ↦ absurd (let m = s.bounded t c k' in omega arith)
          | inr (e', k') ↦ cc
        ]
      ];
      is_open = λ r c h. elim (old r c h) [
        | inl k ↦ s.is_open r c k
        | inr (e, k) ↦ elim (Bool-cases (b.closed c)) [
          | inl m ↦ absurd (let f = s.fresh c m in omega arith)
          | inr m ↦ m
        ]
      ];
      fresh = λ c h. (let m = s.fresh c h in omega arith);
    }

removed-IsSound :
    (b : TaskBroker) (q : String) (c : ℕ)
    → IsSound b
    → member c (b.queues q) ≡ true
    → IsSound (record b {
      queues = set_queue q (remove_first c (b.queues q)) b.queues;
      closed = λ x. x == c || b.closed x;
    })
removed-IsSound b q c s e =
    let cs = remove_first c (b.queues q) in
    let old : (r : String) (x : ℕ)
        → member x (set_queue q cs b.queues r) ≡ true
        → member x (b.queues r) ≡ true =
      λ r x h. elim (set-member q cs b.queues r x h) [
        | inl (p, k) ↦ rw p (member-remove c x (b.queues q) k)
        | inr k ↦ k
      ] in
    record {
      bounded = λ r x h. s.bounded r x (old r x h);
      distinct =
          set-Distinct q cs b.queues (Distinct-remove c (b.queues q) (s.distinct q)) s.distinct;
      alone = λ r t x h k. s.alone r t x (old r x h) (old t x k);
      is_open = λ r x h. elim (Bool-cases (x == c)) [
        | inl m ↦ absurd (removed-gone b q c s e r (let k : x ≡ c = ground arith in rw k at h))
        | inr m ↦ rw m (s.is_open r x (old r x h))
      ];
      fresh = λ x h. elim (Bool-cases (x == c)) [
        | inl m ↦ (let k = s.bounded q c e in ground arith)
        | inr m ↦ s.fresh x (rw m at h)
      ];
    }
  where
    removed-gone :
        (b : TaskBroker) (q : String) (c : ℕ)
        → IsSound b
        → member c (b.queues q) ≡ true
        → (r : String) → ¬ (member c (set_queue q (remove_first c (b.queues q)) b.queues r) ≡ true)
    removed-gone b q c s e r h = elim (Bool-cases (str_eq r q)) [
      | inl m ↦
          absurd (let h' = rw m at h in let k = member-removed c (b.queues q) (s.distinct q) in cc)
      | inr m ↦ absurd (let p = s.alone r q c (rw m at h) e in let t = (str_eq_iff r q).1 p in cc)
    ]

unsubscribe-IsSound :
    (b : TaskBroker) (q : String) (c : ℕ) → IsSound b → IsSound (unsubscribe q c b)
unfolding unsubscribe
unsubscribe-IsSound b q c s = elim (Bool-cases (member c (b.queues q))) [
  | inl e ↦ rw e (removed-IsSound b q c s e)
  | inr e ↦ rw e s
]

reachable-IsSound : {b : TaskBroker} → IsReachable b → IsSound b
reachable-IsSound initial = initial-IsSound
reachable-IsSound (subscribed b q r) = subscribe-IsSound b q (reachable-IsSound r)
reachable-IsSound (notified b q r) = notify-IsSound b q (reachable-IsSound r)
reachable-IsSound (unsubscribed b q c r) = unsubscribe-IsSound b q c (reachable-IsSound r)
reachable-IsSound (received b c r) = receive-IsSound b c (reachable-IsSound r)

-- Notify never sends on a closed channel, which would panic: in a broker that calls have made, in
-- any order and with closures called more than once, a channel on the list of a queue is open, is on
-- no other list, and is on its list once.
pub reachable_channels :
    (b : TaskBroker) (q : String) (c : ℕ)
    → IsReachable b
    → member c (b.queues q) ≡ true
    → (b.closed c ≡ false)
      × Distinct (b.queues q)
      × ((r : String) → member c (b.queues r) ≡ true → q ≡ r)
reachable_channels b q c r h =
    let s = reachable-IsSound r in (s.is_open q c h, s.distinct q, λ t k. s.alone q t c h k)

-- In a broker that calls have made, after a Notify of a queue a stream that is on its list finds a
-- token; after the closure of that stream has run, its channel is closed and off the list of the
-- queue, and every other channel is on the lists that it was on.
pub notify-unsubscribe :
    (b : TaskBroker) (q : String) (c : ℕ)
    → IsReachable b
    → member c (b.queues q) ≡ true
    → ((receive c (notify q b)).0 ≡ true)
      × (member c ((unsubscribe q c b).queues q) ≡ false)
      × ((unsubscribe q c b).closed c ≡ true)
      × ((r : String) (x : ℕ)
          → x ≢ c
          → member x ((unsubscribe q c b).queues r) ≡ member x (b.queues r))
unfolding notify receive unsubscribe
notify-unsubscribe b q c r h =
    let s = reachable-IsSound r in
    rw h (
      refl,
      rw (str_eq_refl q) (member-removed c (b.queues q) (s.distinct q)),
      ground arith,
      λ t x n. elim (Bool-cases (str_eq t q)) [
        | inl e ↦ rw e (rw ((str_eq_iff t q).0 e) (member-other c x (b.queues q) n))
        | inr e ↦ rw e refl
      ],
    )
  where
    member-other : (c x : ℕ) (cs : List ℕ) → x ≢ c → member x (remove_first c cs) ≡ member x cs
    member-other c x [] n = refl
    member-other c x (y ∷ cs) n = ground (arith, member-other c x cs n)

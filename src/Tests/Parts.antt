-- ===== src/Tests/Parts.antt =====
-- The theorems on the store of signals and on the broker, on small ones.
use antflow_server.Base.{ℕ, ◌≡◌, ◌≢◌, refl, true, false, none, some, [], ◌∷◌, String, str_eq, ◌+◌}
use antflow_server.Domain.{canceled, ok, err}
use antflow_server.Signals.{
  SignalKey, SignalStore, new_signal_store, waiter_of, pending_of, ready, blocked, send, wait_begin,
  wait_at, wait_receive, wait_timeout, drain,
}
use antflow_server.Signals.Delivery.{wait-send, send-wait, send-stale}
use antflow_server.Signals.Draining.{drain_lem}
use antflow_server.Broker.{
  TaskBroker, new_task_broker, subscribe, notify, unsubscribe, receive, member,
}
use antflow_server.Signals.Channels as Waits
use antflow_server.Broker.Channels.{IsReachable, initial, subscribed, Distinct}
use antflow_server.Broker.Channels.Reachable.{reachable_channels, notify-unsubscribe}

abbrev key : SignalKey
key = record { execution_id = "x"; name = "approved" }

abbrev other : SignalKey
other = record { execution_id = "y"; name = "approved" }

abbrev nothing : SignalStore
nothing = new_signal_store

no_waiter : waiter_of key nothing ≡ none
unfolding new_signal_store
no_waiter = refl

no_pending : pending_of key nothing ≡ none
unfolding new_signal_store
no_pending = refl

wait-send_example :
    let s = (send key (2 ∷ []) (send key (1 ∷ []) nothing).1).1 in
    ((send key (1 ∷ []) nothing).0 ≡ false)
    × ((wait_begin key s).0 ≡ ready (2 ∷ []))
    × (pending_of key (wait_begin key s).1 ≡ none)
wait-send_example = wait-send key (1 ∷ []) (2 ∷ []) nothing no_waiter

send-wait_example :
    let c = nothing.next_channel in
    let s1 = (wait_begin key nothing).1 in
    let s2 = (send key (1 ∷ []) s1).1 in
    let s3 = (send key (2 ∷ []) s2).1 in
    ((wait_begin key nothing).0 ≡ blocked c)
    × ((send key (1 ∷ []) s1).0 ≡ true)
    × ((send key (2 ∷ []) s2).0 ≡ false)
    × (pending_of key s3 ≡ some (record { key = key; payload = 2 ∷ [] }))
    × ((s4 : SignalStore) × (wait_receive c s3 ≡ some (ok (1 ∷ []), s4)))
send-wait_example = send-wait key (1 ∷ []) (2 ∷ []) nothing no_pending

send-stale_example :
    let s1 = (wait_begin key nothing).1 in
    let s2 = (wait_begin key s1).1 in
    let s3 = (wait_timeout key s2).1 in
    let s4 = (send key (1 ∷ []) s3).1 in
    ((wait_begin key s1).0 ≡ blocked (nothing.next_channel + 1))
    × ((send key (1 ∷ []) s3).0 ≡ false)
    × (pending_of key s4 ≡ some (record { key = key; payload = 1 ∷ [] }))
    × (wait_receive (nothing.next_channel + 1) s4 ≡ none)
send-stale_example = send-stale key (1 ∷ []) nothing no_pending

-- A goroutine waits for the signal of the execution.
abbrev one_waits : SignalStore
one_waits = (wait_begin key nothing).1

other_execution : str_eq "y" "x" ≡ false
unfolding str_eq
other_execution = refl

-- And one waits for that of another execution.
abbrev two_wait : SignalStore
two_wait = (wait_begin other one_waits).1

two_wait-IsReachable : Waits.IsReachable two_wait
two_wait-IsReachable = Waits.began other (Waits.began key Waits.new)

first_waits : waiter_of key two_wait ≡ some (record { key = key; ch = 0 })
unfolding wait_begin new_signal_store wait_at str_eq
first_waits = refl

other_waits : waiter_of other two_wait ≡ some (record { key = other; ch = 1 })
unfolding wait_begin new_signal_store wait_at str_eq
other_waits = refl

drain_lem_example :
    let s = drain "x" two_wait in
    (wait_receive 0 s ≡ some (err canceled, s))
    × (waiter_of key s ≡ none)
    × (pending_of key s ≡ none)
    × (waiter_of other s ≡ some (record { key = other; ch = 1 }))
    × (pending_of other s ≡ pending_of other two_wait)
    × (s.channels 1 ≡ two_wait.channels 1)
    × (wait_receive 1 s ≡ none)
drain_lem_example =
    drain_lem key other (record { key = key; ch = 0 }) (record { key = other; ch = 1 }) two_wait
      two_wait-IsReachable first_waits other_waits other_execution

-- Two streams on one queue, and one on another.
abbrev three_streams : TaskBroker
three_streams = (subscribe "r" (subscribe "q" (subscribe "q" new_task_broker).1).1).1

three-IsReachable : IsReachable three_streams
three-IsReachable = subscribed _ "r" (subscribed _ "q" (subscribed new_task_broker "q" initial))

second_listed : member 1 (three_streams.queues "q") ≡ true
unfolding subscribe new_task_broker str_eq
second_listed = refl

reachable_channels_example :
    (three_streams.closed 1 ≡ false)
    × Distinct (three_streams.queues "q")
    × ((r : String) → member 1 (three_streams.queues r) ≡ true → "q" ≡ r)
reachable_channels_example = reachable_channels three_streams "q" 1 three-IsReachable second_listed

notify-unsubscribe_example :
    ((receive 1 (notify "q" three_streams)).0 ≡ true)
    × (member 1 ((unsubscribe "q" 1 three_streams).queues "q") ≡ false)
    × ((unsubscribe "q" 1 three_streams).closed 1 ≡ true)
    × ((r : String) (x : ℕ)
        → x ≢ 1
        → member x ((unsubscribe "q" 1 three_streams).queues r) ≡ member x (three_streams.queues r))
notify-unsubscribe_example = notify-unsubscribe three_streams "q" 1 three-IsReachable second_listed

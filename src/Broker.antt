-- ===== src/Broker.antt =====
-- usecase/broker.go: the channels that wait for work on each queue.
pub mod Channels
use antflow_server.Base.{
  ℕ, suc, ◌+◌, Bool, true, false, ◌||◌, List, [], ◌∷◌, ◌++◌, String, str_eq, ◌==◌, exists,
  if◌then◌else◌,
}

-- A channel is its number. `queues` is the map of the source, where a missing key reads as the
-- empty slice; `signalled` says that a channel (of capacity 1) holds a token.
pub record TaskBroker : Type 0 where
  pub queues : String → List ℕ
  pub signalled : ℕ → Bool
  pub closed : ℕ → Bool
  pub next_channel : ℕ

abbrev pub member : ℕ → List ℕ → Bool
member c cs = exists (λ x. x == c) cs

unfoldable pub new_task_broker : TaskBroker
new_task_broker = record {
  queues = λ q. [];
  signalled = λ c. false;
  closed = λ c. false;
  next_channel = 0;
}

-- The send is dropped where the channel is full: either way it is full afterwards.
unfoldable pub notify : String → TaskBroker → TaskBroker
notify queue b = record b { signalled = λ c. member c (b.queues queue) || b.signalled c }

abbrev set_queue : String → List ℕ → (String → List ℕ) → String → List ℕ
set_queue q cs m r = if str_eq r q then cs else m r

unfoldable pub subscribe : String → TaskBroker → ℕ × TaskBroker
subscribe queue b = (
  b.next_channel,
  record b {
    queues = set_queue queue (b.queues queue ++ b.next_channel ∷ []) b.queues;
    next_channel = b.next_channel + 1;
  },
)

-- The loop of the closure: the first entry that is the channel goes.
abbrev pub remove_first : ℕ → List ℕ → List ℕ
remove_first c [] = []
remove_first c (x ∷ xs) = let rest = remove_first c xs in if x == c then xs else x ∷ rest

unfoldable pub unsubscribe : String → ℕ → TaskBroker → TaskBroker
unsubscribe queue c b =
    if member c (b.queues queue)
    then record b {
      queues = set_queue queue (remove_first c (b.queues queue)) b.queues;
      closed = λ x. x == c || b.closed x;
    }
    else b

-- The select of a stream takes the token.
unfoldable pub receive : ℕ → TaskBroker → Bool × TaskBroker
receive c b = (b.signalled c, record b { signalled = λ x. if x == c then false else b.signalled x })

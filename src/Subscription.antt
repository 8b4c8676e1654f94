-- ===== src/Subscription.antt =====
-- store/subscription.rs: catch-up subscriptions, over any store that reads its log by position.
pub mod Delivery
use weavatrix_memory.Base.{
  ℕ, ◌≡◌, Bool, true, false, ◌||◌, Option, none, some, List, [], ◌∷◌, ltb, eqb, get_last?, take,
  drop, if◌then◌else◌, Result, ok, err, ok_or, reject, ◌>>=◌, ◌>>◌, invalid_value,
}
use weavatrix_memory.Event.{StoredEvent}
use weavatrix_memory.Store.Log.{IsLog}
use weavatrix_memory.Store.Load.{from_cursor, load_all-IsConsistent}
use weavatrix_memory.Store.Consistent.{IsConsistent}
use weavatrix_memory.Store.{InMemoryStore}
use weavatrix_memory.Store

-- What a subscription needs of an `EventStore`: `load_all`, and that it reads a log in order.
pub record EventSource (E : Type 0) : Type 0 where
  pub load_all : Option ℕ → (limit : ℕ) → List (StoredEvent E)
  pub log : List (StoredEvent E)
  pub log-IsLog : IsLog log
  pub load_all_lem :
      (after : Option ℕ) (limit : ℕ)
      → load_all after limit ≡ take limit (drop (from_cursor after) log)

-- A consistent store in memory is such a source.
abbrev pub in_memory : {E : Type 0} (st : InMemoryStore E) → IsConsistent st → EventSource E
in_memory st k = record {
  load_all = Store.load_all st;
  log = st.events;
  log-IsLog = k.log;
  load_all_lem = λ after limit. load_all-IsConsistent st after limit k;
}

pub record SubscriptionCheckpoint : Type 0 where
  pub global_position : Option ℕ

pub record CatchUpSubscription : Type 0 where
  pub checkpoint : SubscriptionCheckpoint
  pub delivered_through : Option ℕ
  pub batch_size : ℕ

pub new_subscription : SubscriptionCheckpoint → (batch_size : ℕ) → Result CatchUpSubscription
new_subscription checkpoint batch_size = do
  reject (eqb batch_size 0) (invalid_value "subscription.batch_size" "must be greater than zero")
  ok (record { checkpoint = checkpoint; delivered_through = none; batch_size = batch_size })

module _ {E : Type 0} where
  abbrev pub position_of : Option (StoredEvent E) → Option ℕ
  position_of none = none
  position_of (some e) = some e.global_position

  pub poll : CatchUpSubscription → EventSource E → List (StoredEvent E) × CatchUpSubscription
  poll sub store =
      let events = store.load_all sub.checkpoint.global_position sub.batch_size in
      (events, record sub { delivered_through = position_of (get_last? events) })

-- `is_some_and(|current| global_position < current)`
abbrev pub is_behind : ℕ → Option ℕ → Bool
is_behind position none = false
is_behind position (some current) = ltb position current

pub acknowledge : CatchUpSubscription → (global_position : ℕ) → Result CatchUpSubscription
acknowledge sub position = do
  delivered ←
      ok_or (invalid_value "subscription.acknowledge" "no events have been delivered")
        sub.delivered_through
  reject (ltb delivered position || is_behind position sub.checkpoint.global_position)
      (invalid_value "subscription.acknowledge" "position is outside the delivered range")
  ok (record sub {
    checkpoint = record { global_position = some position };
    delivered_through = none;
  })

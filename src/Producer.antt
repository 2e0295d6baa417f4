-- ===== src/Producer.antt =====
-- legacy/v1/src/k2/ingestion/producer.py: BoundedCache, which keeps its entries here with the one used
-- last first, and MarketDataProducer: the serializers, a message with its retries, close. The
-- registry, the serialization and Kafka's producer are parameters or outcomes of attempts; a delay is
-- a count of clock units, and the backoff factor a whole number.
pub mod Recent
pub mod Cache
pub mod Retries
use k2_market_data_platform.Base.{
  ℕ, zero, suc, ◌+◌, ◌*◌, ◌^◌, String, Bool, true, false, Option, none, some, List, [], ◌∷◌, ◌++◌,
  length, if◌then◌else◌, ltb, min,
}
use k2_market_data_platform.Base.Eq.{◌=?◌, string_eq}
use k2_market_data_platform.Base.Dict.{Dict, lookup, erase}
use k2_market_data_platform.Base.Eq.{given}

module _ {V : Type 0} where
  -- `move_to_end` of a key with its value
  abbrev pub move_to_end : String → V → Dict String V → Dict String V
  move_to_end key value cache = (key, value) ∷ erase key cache

  abbrev pub get_found : String → Option V → Dict String V → Option V × Dict String V
  get_found key none cache = (none, cache)
  get_found key (some value) cache = (some value, move_to_end key value cache)

  unfoldable pub get : String → Dict String V → Option V × Dict String V
  get key cache = get_found key (lookup key cache) cache

  -- `popitem(last=False)`: all but the entry used the longest ago
  unfoldable pub evict : Dict String V → Dict String V
  evict [] = []
  evict (entry ∷ []) = []
  evict (entry ∷ (next ∷ cache)) = entry ∷ evict (next ∷ cache)

  abbrev pub set_found : ℕ → String → V → Option V → Dict String V → Dict String V
  set_found max_size key value (some old) cache = move_to_end key value cache
  set_found max_size key value none cache =
      if ltb max_size (suc (length cache))
      then evict ((key, value) ∷ cache)
      else (key, value) ∷ cache

  unfoldable pub set : ℕ → String → V → Dict String V → Dict String V
  set max_size key value cache = set_found max_size key value (lookup key cache) cache

  -- what the registry gives for a subject is put in the cache; none where it raises
  abbrev pub created : ℕ → String → Option V → Dict String V → Option V × Dict String V
  created max_size subject none cache = (none, cache)
  created max_size subject (some serializer) cache =
      (some serializer, set max_size subject serializer cache)

  abbrev pub or_create :
      ℕ → (String → Option V) → String → Option V × Dict String V → Option V × Dict String V
  or_create max_size registry subject (some serializer, cache) = (some serializer, cache)
  or_create max_size registry subject (none, cache) =
      created max_size subject (registry subject) cache

  unfoldable pub get_serializer :
      ℕ → (String → Option V) → String → Dict String V → Option V × Dict String V
  get_serializer max_size registry subject cache =
      or_create max_size registry subject (get subject cache)

-- How an attempt ends: the message is in Kafka's queue and the poll returns; the queue is full, and
-- the poll that follows returns, or raises, which ends the call; the serialization or the call of
-- Kafka's client raises; or the message is in the queue and the poll raises, as it does where a
-- delivery callback did.
pub data Try : Type 0 where
  queued : Try
  queue_full : Try
  full_raises : Try
  refused : Try
  poll_raises : Try

pub record RetrySettings : Type 0 where
  pub max_retries : ℕ
  pub initial_retry_delay : ℕ
  pub retry_backoff_factor : ℕ
  pub max_retry_delay : ℕ

-- the statistics of a producer, Kafka's queue and how long it slept
pub record Producing (M : Type 0) : Type 0 where
  pub queue : List M
  pub total_produced : ℕ
  pub total_errors : ℕ
  pub total_retries : ℕ
  pub slept : List ℕ

-- a call returns or raises
pub data Produced (M : Type 0) : Type 0 where
  sent : Producing M → Produced M
  failed : Producing M → Produced M

abbrev pub is_sent : Try → Bool
is_sent queued = true
is_sent queue_full = false
is_sent full_raises = false
is_sent refused = false
is_sent poll_raises = false

-- an error that is raised out of the handler of a full queue, past the count and the retry
abbrev pub ends_call : Try → Bool
ends_call full_raises = true
ends_call queued = false
ends_call queue_full = false
ends_call refused = false
ends_call poll_raises = false

module _ {M : Type 0} where
  abbrev pub enqueue : M → Try → Producing M → Producing M
  enqueue message queued p = record p { queue = p.queue ++ message ∷ [] }
  enqueue message poll_raises p = record p { queue = p.queue ++ message ∷ [] }
  enqueue message queue_full p = p
  enqueue message full_raises p = p
  enqueue message refused p = p

  abbrev pub count_retry : Producing M → Producing M
  count_retry p = record p { total_retries = suc p.total_retries }

  abbrev pub sleep : RetrySettings → ℕ → Producing M → Producing M
  sleep s delay p = record p { slept = p.slept ++ min delay s.max_retry_delay ∷ [] }

module _ {M : Type 0} (s : RetrySettings) (message : M) (tries : ℕ → Try) where
  -- `while retry_count <= self.max_retries`, with the number of retries that are left
  unfoldable pub attempts : ℕ → ℕ → ℕ → Producing M → Produced M
  attempts zero retry_count delay p =
      let next = enqueue message (tries retry_count) p in
      if is_sent (tries retry_count)
      then sent next
      else if ends_call (tries retry_count)
      then failed next
      else failed (count_retry next)
  attempts (suc left) retry_count delay p =
      let next = enqueue message (tries retry_count) p in
      let rest =
        attempts left (suc retry_count) (delay * s.retry_backoff_factor)
          (sleep s delay (count_retry next)) in
      if is_sent (tries retry_count)
      then sent next
      else if ends_call (tries retry_count)
      then failed next
      else rest

  unfoldable pub produce_with_retry : Producing M → Produced M
  produce_with_retry p = attempts s.max_retries 0 s.initial_retry_delay p

-- the callback, for an error or a delivery
abbrev pub delivery_callback : {M : Type 0} → Bool → Producing M → Producing M
delivery_callback true p = record p { total_errors = suc p.total_errors }
delivery_callback false p = record p { total_produced = suc p.total_produced }

-- a producer that is open or closed, with the cache of its serializers
pub record MarketDataProducer (M V : Type 0) : Type 0 where
  pub is_open : Bool
  pub serializers : Dict String V
  pub producing : Producing M

pub data Call (M V : Type 0) : Type 0 where
  returns : MarketDataProducer M V → Call M V
  raises : MarketDataProducer M V → Call M V

module _ {M V : Type 0} (s : RetrySettings) (max_size : ℕ) (registry : String → Option V) where
  abbrev pub settle_produced : MarketDataProducer M V → Produced M → Call M V
  settle_produced c (sent p) = returns (record c { producing = p })
  settle_produced c (failed p) = raises (record c { producing = p })

  abbrev pub with_serializer :
      M → (ℕ → Try) → MarketDataProducer M V → Option V × Dict String V → Call M V
  with_serializer message tries c (none, cache) = raises (record c { serializers = cache })
  with_serializer message tries c (some serializer, cache) =
      settle_produced (record c { serializers = cache })
        (produce_with_retry s message tries c.producing)

  abbrev pub with_key : Option String → M → (ℕ → Try) → String → MarketDataProducer M V → Call M V
  with_key none message tries subject c = raises c
  with_key (some key) message tries subject c =
      with_serializer message tries c (get_serializer max_size registry subject c.serializers)

  abbrev pub with_topic :
      Option String → M → (ℕ → Try) → Option String → MarketDataProducer M V → Call M V
  with_topic partition_key message tries none c = raises c
  with_topic partition_key message tries (some subject) c =
      with_key (given partition_key) message tries subject c

  -- a record with its partition key, and the schema subject of its topic, which is none where the
  -- asset class or the exchange has no topic
  unfoldable pub produce_message :
      Option String → M → (ℕ → Try) → Option String → MarketDataProducer M V → Call M V
  produce_message partition_key message tries subject c =
      if c.is_open then with_topic partition_key message tries subject c else raises c

  -- the errors of its flush are caught
  unfoldable pub close : MarketDataProducer M V → MarketDataProducer M V
  close c = record c { is_open = false }

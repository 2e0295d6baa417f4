-- ===== src/Tests/ProducerTests.antt =====
-- The producer: two serializers in the cache, and a message with two retries.
use k2_market_data_platform.Base.{
  ℕ, zero, suc, ◌≤◌, ◌≡◌, refl, String, some, List, [], ◌∷◌, ◌++◌, map, take,
}
use k2_market_data_platform.Producer.{
  Try, queued, queue_full, poll_raises, RetrySettings, Producing, produce_with_retry, attempts,
}
use k2_market_data_platform.Producer.Cache.{serve, recent, keys_of, serve-recent}
use k2_market_data_platform.Producer.Retries.{
  producing_of, is_returned, any_sent, copies, times, produce_with_retry-copies,
}

abbrev subjects : List String
subjects = "trades" ∷ "quotes" ∷ "trades" ∷ "bars" ∷ []

serve-recent_example :
    ((serve 2 (λ k. some k) subjects []).0 ≡ map (λ k. some k) subjects)
    × (keys_of (serve 2 (λ k. some k) subjects []).1 ≡ take 2 (recent (λ k. some k) subjects []))
serve-recent_example = serve-recent 2 (λ k. some k) subjects

abbrev retry_settings : RetrySettings
retry_settings = record {
  max_retries = 2;
  initial_retry_delay = 100;
  retry_backoff_factor = 2;
  max_retry_delay = 150;
}

abbrev three_tries : ℕ → Try
three_tries zero = poll_raises
three_tries (suc zero) = queue_full
three_tries (suc (suc n)) = queued

abbrev fresh_producing : Producing ℕ
fresh_producing = record {
  queue = [];
  total_produced = 0;
  total_errors = 0;
  total_retries = 0;
  slept = [];
}

produce_with_retry-copies_example :
    ((producing_of (produce_with_retry retry_settings 7 three_tries fresh_producing)).queue
      ≡ [] ++ times (copies three_tries 3 0) 7)
    × (is_returned (produce_with_retry retry_settings 7 three_tries fresh_producing)
        ≡ any_sent three_tries 3 0)
    × (copies three_tries 3 0 ≤ 3)
produce_with_retry-copies_example =
    produce_with_retry-copies retry_settings 7 three_tries fresh_producing

-- A message whose first attempt got it in the queue before the poll raised is there twice.
twice :
    (producing_of (produce_with_retry retry_settings 7 three_tries fresh_producing)).queue
    ≡ 7 ∷ 7 ∷ []
unfolding produce_with_retry attempts
twice = refl

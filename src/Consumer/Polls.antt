-- ===== src/Consumer/Polls.antt =====
-- What the polls of a batch bring, and what a loop over them has done.
use k2_market_data_platform.Base.{
  ℕ, suc, ◌+◌, ◌≤◌, ◌≡◌, refl, false, List, [], ◌∷◌, ◌++◌, append_assoc, length, get_or, arith,
}
use k2_market_data_platform.DegradationManager.{contains}
use k2_market_data_platform.LoadShedder.{Tiers}
use k2_market_data_platform.Consumer.{
  MarketRecord, Decoding, undecodable, no_record, decoded, Polled, quiet, end_of_partition,
  poll_error, message, Settings, Filling,
}

-- A record that the load shedding may drop: its symbol is not of the first tier.
abbrev pub Sheddable : Tiers → MarketRecord → Type 0
Sheddable t r = contains (get_or r.symbol "unknown") t.tier_1 ≡ false

-- The first list is the second without some records that may be shed.
pub data Kept (t : Tiers) : List MarketRecord → List MarketRecord → Type 0 where
  kept_none : Kept t [] []
  keeps : (r : MarketRecord) {ks rs : List MarketRecord} → Kept t ks rs → Kept t (r ∷ ks) (r ∷ rs)
  sheds :
      (r : MarketRecord) {ks rs : List MarketRecord}
      → Sheddable t r
      → Kept t ks rs
      → Kept t ks (r ∷ rs)

abbrev pub record_of : Decoding → List MarketRecord
record_of undecodable = []
record_of no_record = []
record_of (decoded r) = r ∷ []

module _ {V : Type 0} (deserialize : V → Decoding) where
  -- the records among what was polled
  abbrev pub records : List (Polled V) → List MarketRecord
  records [] = []
  records (quiet ∷ polls) = records polls
  records (end_of_partition ∷ polls) = records polls
  records (poll_error ∷ polls) = records polls
  records (message v ∷ polls) = record_of (deserialize v) ++ records polls

-- how many messages were polled
abbrev pub messages : {V : Type 0} → List (Polled V) → ℕ
messages [] = 0
messages (quiet ∷ polls) = messages polls
messages (end_of_partition ∷ polls) = messages polls
messages (poll_error ∷ polls) = messages polls
messages (message v ∷ polls) = suc (messages polls)

-- What a loop from `f` that ends at `g` has done, with the polls that it used and those it left.
pub record Took {V : Type 0} (s : Settings V) (f : Filling) (polls : List (Polled V)) (g : Filling)
    (rest : List (Polled V)) : Type 0 where
  pub used : List (Polled V)
  pub kept : List MarketRecord
  pub split : polls ≡ used ++ rest
  pub batch_is : g.batch ≡ f.batch ++ kept
  pub of_records : Kept s.tiers kept (records s.deserialize used)
  pub delivered_is : g.delivered ≡ f.delivered + messages used
  pub consumed_is :
      g.stats.messages_consumed ≡ f.stats.messages_consumed + length (records s.deserialize used)
  pub written_is : g.stats.messages_written ≡ f.stats.messages_written
  pub fits : length f.batch ≤ s.batch_size → length g.batch ≤ s.batch_size

pub Kept-append :
    {t : Tiers} {ks rs ls qs : List MarketRecord}
    → Kept t ks rs
    → Kept t ls qs
    → Kept t (ks ++ ls) (rs ++ qs)
Kept-append kept_none k = k
Kept-append (keeps r h) k = keeps r (Kept-append h k)
Kept-append (sheds r d h) k = sheds r d (Kept-append h k)

pub records-append :
    {V : Type 0} (s : Settings V) (ps qs : List (Polled V))
    → records s.deserialize (ps ++ qs) ≡ records s.deserialize ps ++ records s.deserialize qs
records-append s [] qs = refl
records-append s (quiet ∷ ps) qs = records-append s ps qs
records-append s (end_of_partition ∷ ps) qs = records-append s ps qs
records-append s (poll_error ∷ ps) qs = records-append s ps qs
records-append s (message v ∷ ps) qs = grind (arith, records-append s ps qs, append_assoc)

pub messages-append :
    {V : Type 0} (ps qs : List (Polled V)) → messages (ps ++ qs) ≡ messages ps + messages qs
messages-append [] qs = omega arith
messages-append (quiet ∷ ps) qs = messages-append ps qs
messages-append (end_of_partition ∷ ps) qs = messages-append ps qs
messages-append (poll_error ∷ ps) qs = messages-append ps qs
messages-append (message v ∷ ps) qs = omega (arith, messages-append ps qs)

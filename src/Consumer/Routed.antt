-- ===== src/Consumer/Routed.antt =====
-- Records that end in the table, in the dead letter queue, or are shed.
use k2_market_data_platform.Base.{
  ◌+◌, ◌≡◌, refl, sym, subst, List, [], ◌∷◌, ◌++◌, append_assoc, append-nil, arith,
}
use k2_market_data_platform.LoadShedder.{Tiers}
use k2_market_data_platform.Consumer.{MarketRecord, Polled, Settings, Consumer}
use k2_market_data_platform.Consumer.Polls.{
  Sheddable, Kept, kept_none, keeps, sheds, records, messages, records-append, messages-append,
}

-- Each of the records, in their order, is put at the end of the table, of the dead letter queue, or
-- may be shed.
pub data Routed (t : Tiers)
    : List MarketRecord → List MarketRecord → List MarketRecord → Type 0 where
  routed_none : Routed t [] [] []
  to_table :
      (r : MarketRecord) {ts ds rs : List MarketRecord}
      → Routed t ts ds rs
      → Routed t (r ∷ ts) ds (r ∷ rs)
  to_dlq :
      (r : MarketRecord) {ts ds rs : List MarketRecord}
      → Routed t ts ds rs
      → Routed t ts (r ∷ ds) (r ∷ rs)
  is_shed :
      (r : MarketRecord) {ts ds rs : List MarketRecord}
      → Sheddable t r
      → Routed t ts ds rs
      → Routed t ts ds (r ∷ rs)

pub Kept-table : {t : Tiers} {ks rs : List MarketRecord} → Kept t ks rs → Routed t ks [] rs
Kept-table kept_none = routed_none
Kept-table (keeps r k) = to_table r (Kept-table k)
Kept-table (sheds r d k) = is_shed r d (Kept-table k)

pub Kept-dlq : {t : Tiers} {ks rs : List MarketRecord} → Kept t ks rs → Routed t [] ks rs
Kept-dlq kept_none = routed_none
Kept-dlq (keeps r k) = to_dlq r (Kept-dlq k)
Kept-dlq (sheds r d k) = is_shed r d (Kept-dlq k)

pub Routed-append :
    {t : Tiers} {ts ds rs us es qs : List MarketRecord}
    → Routed t ts ds rs
    → Routed t us es qs
    → Routed t (ts ++ us) (ds ++ es) (rs ++ qs)
Routed-append routed_none k = k
Routed-append (to_table r h) k = to_table r (Routed-append h k)
Routed-append (to_dlq r h) k = to_dlq r (Routed-append h k)
Routed-append (is_shed r d h) k = is_shed r d (Routed-append h k)

-- From `c`, over the polls up to `rest`, to `d`: the committed position has moved over the messages
-- of these polls, and their records are in the table, in the dead letter queue, or may be shed.
-- What else was written, of messages that are not committed, are the last rows of the two.
pub record Delivery {V : Type 0} (s : Settings V) (c : Consumer) (polls : List (Polled V))
    (d : Consumer) (rest : List (Polled V)) (table dlq : List MarketRecord) : Type 0 where
  pub used : List (Polled V)
  pub tabled : List MarketRecord
  pub dead : List MarketRecord
  pub split : polls ≡ used ++ rest
  pub table_is : d.table ≡ c.table ++ tabled ++ table
  pub dlq_is : d.dlq ≡ c.dlq ++ dead ++ dlq
  pub routed : Routed s.tiers tabled dead (records s.deserialize used)
  pub committed_is : d.committed ≡ c.committed + messages used

module _ {V : Type 0} (s : Settings V) where
  pub none-Delivery : (c : Consumer) (polls : List (Polled V)) → Delivery s c polls c polls [] []
  none-Delivery c polls = record {
    used = [];
    tabled = [];
    dead = [];
    split = refl;
    table_is = grind (arith, append-nil);
    dlq_is = grind (arith, append-nil);
    routed = routed_none;
    committed_is = omega arith;
  }

  pub Delivery-trans :
      (c m d : Consumer) (polls mid rest : List (Polled V)) (table dlq : List MarketRecord)
      → Delivery s c polls m mid [] []
      → Delivery s m mid d rest table dlq
      → Delivery s c polls d rest table dlq
  Delivery-trans c m d polls mid rest table dlq h k = record {
    used = h.used ++ k.used;
    tabled = h.tabled ++ k.tabled;
    dead = h.dead ++ k.dead;
    split = grind (arith, h.split, k.split, append_assoc);
    table_is = grind (arith, h.table_is, k.table_is, append_assoc, append-nil);
    dlq_is = grind (arith, h.dlq_is, k.dlq_is, append_assoc, append-nil);
    routed =
        subst (Routed s.tiers _ _) (sym (records-append s h.used k.used))
          (Routed-append h.routed k.routed);
    committed_is = omega (arith, h.committed_is, k.committed_is, messages-append h.used k.used);
  }

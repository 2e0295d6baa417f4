-- ===== src/KafkaTail/Stale.antt =====
-- What trimming does not remove.
use k2_market_data_platform.Base.{
  ℕ, suc, ◌≡◌, refl, ap, ◌∙◌, String, false, none, some, List, [], ◌∷◌, drop, All, get_or,
}
use k2_market_data_platform.Base.Eq.{string_eq}
use k2_market_data_platform.Base.Dict.{IsDict}
use k2_market_data_platform.KafkaTail.{
  TailMessage, TailSettings, Tail, symbol_messages, is_recent, first_recent, trim_old_messages,
}
use k2_market_data_platform.KafkaTail.Accounts.{lookup-trim_entries}

-- A trim leaves every message of a symbol that has none within the window. The symbols of the
-- buffer are distinct.
pub trim_old_messages-stale :
    {D : Type 0} (s : TailSettings) (now : ℕ) (symbol : String) (t : Tail D)
    → IsDict t.buffer
    → All (λ m. is_recent s now m ≡ false) (symbol_messages symbol t)
    → symbol_messages symbol (trim_old_messages s now t) ≡ symbol_messages symbol t
unfolding trim_old_messages first_recent
trim_old_messages-stale {D} s now symbol t d h =
    lookup-trim_entries s now symbol t.buffer d
    ∙ ap (λ i. drop (get_or i 0) (symbol_messages symbol t)) (nowhere (symbol_messages symbol t) h)
  where
    nowhere :
        (messages : List (TailMessage D))
        → All (λ m. is_recent s now m ≡ false) messages
        → first_recent s now messages ≡ none
    nowhere [] h = refl
    nowhere (m ∷ messages) h =
        rw h.0 (ap (λ o. elim o [ none ↦ none | some i ↦ some (suc i) ]) (nowhere messages h.1))

-- ===== src/Candle/Snapshot.antt =====
-- candle_manager.cpp: the candles that GetCandlesSnapshot returns after a history of trades.
use mathlib.Core.List.{foldl}
use consolidated_book.Common.{
  ℕ, ◌<◌, ◌≡◌, refl, sym, ◌∙◌, inl, inr, ◌↔◌, List, [], ◌∷◌, none, some, Text, text_eq, text_eq_iff,
  arith, Any, Option-cases, Bool-cases,
}
use consolidated_book.Types.Double.{Double}
use consolidated_book.Types.Market.{Trade, Candle}
use consolidated_book.Candle.Manager.{
  Candles, CandleManager, candle_manager, find_candle, replace_candle, update_candle, create_candle,
  handle_trade, handle_trades, get_candles_snapshot,
}
use consolidated_book.Candle.Manager
use consolidated_book.Candle.Lookup.{advance, trades_of, handle_trades-find}

module _ {W : Type 0} where
  -- No two entries have the same instrument.
  abbrev pub IsKeyed : Candles W → Type 0
  IsKeyed [] = Unit
  IsKeyed ((k, c) ∷ m) = (find_candle k m ≡ none) × IsKeyed m

  replace-none :
      (k j : Text) (c : Candle W) (m : Candles W)
      → find_candle j m ≡ none
      → find_candle j (replace_candle k c m) ≡ none
  unfolding find_candle replace_candle
  replace-none k j c [] h = refl
  replace-none k j c ((i, b) ∷ m) h = ground (arith, replace-none k j c m)

  replace-IsKeyed :
      (k : Text) (c : Candle W) (m : Candles W) → IsKeyed m → IsKeyed (replace_candle k c m)
  unfolding replace_candle
  replace-IsKeyed k c [] h = tt
  replace-IsKeyed k c ((i, b) ∷ m) h =
      ground (arith, replace-none k i c m h.0, replace-IsKeyed k c m h.1)

  abbrev pub Held : Candle W → Candles W → Type 0
  Held b m = (k : Text) × (find_candle k m ≡ some b)

  pub snapshot-Held :
      (b : Candle W) (m : Candles W) → IsKeyed m → Any (λ c. c ≡ b) (Manager.snapshot m) → Held b m
  unfolding Manager.snapshot find_candle
  snapshot-Held b [] h a = elim a [ ]
  snapshot-Held b ((k, c) ∷ m) h (inl e) = (k, ground (arith, text_eq_iff k k))
  snapshot-Held b ((k, c) ∷ m) h (inr a) =
      let (j, found) = snapshot-Held b m h.1 a in (j, ground (arith, text_eq_iff k j))

  pub Held-snapshot :
      (b : Candle W) (m : Candles W) → Held b m → Any (λ c. c ≡ b) (Manager.snapshot m)
  unfolding Manager.snapshot find_candle
  Held-snapshot b [] (k, e) = cc
  Held-snapshot b ((k, c) ∷ m) (j, e) = elim (Bool-cases (text_eq k j)) [
    | inl same ↦ inl (ground arith)
    | inr other ↦ inr (Held-snapshot b m (j, ground arith))
  ]

module _ {W : Type 0} ⦃d : Double W⦄ where
  handle_trade-IsKeyed :
      (m m' : CandleManager W) (t : Trade W)
      → IsKeyed m.candles
      → handle_trade m t ≡ some m'
      → IsKeyed m'.candles
  unfolding handle_trade
  handle_trade-IsKeyed m m' t h e = elim (Option-cases (find_candle t.instrument m.candles)) [
    | inl miss ↦ ground arith
    | inr (b, hit) ↦ ground (arith, replace-IsKeyed t.instrument (update_candle b t) m.candles h)
  ]

  pub handle_trades-IsKeyed :
      (m m' : CandleManager W) (ts : List (Trade W))
      → IsKeyed m.candles
      → handle_trades m ts ≡ some m'
      → IsKeyed m'.candles
  unfolding handle_trades
  handle_trades-IsKeyed m m' [] h e = ground arith
  handle_trades-IsKeyed m m' (t ∷ ts) h e = elim (Option-cases (handle_trade m t)) [
    | inl fault ↦ ground arith
    | inr (m1, one) ↦
        handle_trades-IsKeyed m1 m' ts (handle_trade-IsKeyed m m1 t h one) (ground arith)
  ]

  -- From a new manager with a positive interval any trades are handled, and the snapshot then holds
  -- exactly the candles of the instruments traded, each made from the trades of its instrument.
  pub get_candles_snapshot-history :
      (instruments : List Text) (n : ℕ) (ts : List (Trade W))
      → 0 < n
      → (m : CandleManager W) × (handle_trades (candle_manager instruments n) ts ≡ some m)
        × IsKeyed m.candles
        × ((b : Candle W)
            → Any (λ c. c ≡ b) (get_candles_snapshot m)
              ↔ ((k : Text) × (foldl (advance n) none (trades_of k ts) ≡ some b)))
  unfolding candle_manager get_candles_snapshot find_candle
  get_candles_snapshot-history instruments n ts h =
      let (m, done, same, at) = handle_trades-find (candle_manager instruments n) ts h in
      let keyed = handle_trades-IsKeyed (candle_manager instruments n) m ts tt done in
      (
        m,
        done,
        keyed,
        λ b. (
          λ a. let (k, e) = snapshot-Held b m.candles keyed a in (k, sym (at k) ∙ e),
          λ (k, e). Held-snapshot b m.candles (k, at k ∙ e),
        ),
      )

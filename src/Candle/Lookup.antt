-- ===== src/Candle/Lookup.antt =====
-- candle_manager.cpp: what HandleTrade and HandleMessage do to the candle of each instrument.
use consolidated_book.Common.{
  ℕ, ◌<◌, ◌≡◌, refl, ◌∙◌, inl, inr, List, [], ◌∷◌, Option, none, some, if◌then◌else◌, Text, text_eq,
  text_eq_iff, Option-cases, arith,
}
use mathlib.Core.List.{foldl}
use consolidated_book.Types.Double.{Double}
use consolidated_book.Types.Market.{Trade, Candle}
use consolidated_book.Candle.Manager.{
  Candles, CandleManager, find_candle, replace_candle, update_candle, opened_candle, create_candle,
  handle_trade, handle_trades,
}

module _ {W : Type 0} where
  pub find-replace :
      (k j : Text) (c b : Candle W) (m : Candles W)
      → find_candle k m ≡ some b
      → find_candle j (replace_candle k c m) ≡ (if text_eq k j then some c else find_candle j m)
  unfolding find_candle replace_candle
  find-replace k j c b [] h = cc
  find-replace k j c b ((i, a) ∷ m) h =
      ground (arith, text_eq_iff k j, text_eq_iff i k, text_eq_iff i j, find-replace k j c b m)

  -- The trades of one instrument, in order.
  abbrev pub trades_of : Text → List (Trade W) → List (Trade W)
  trades_of k [] = []
  trades_of k (t ∷ ts) = if text_eq t.instrument k then t ∷ trades_of k ts else trades_of k ts

module _ {W : Type 0} ⦃d : Double W⦄ where
  -- What one trade does to the candle of its own instrument.
  unfoldable pub advance : ℕ → Option (Candle W) → Trade W → Option (Candle W)
  advance interval_ms none t = create_candle interval_ms t
  advance interval_ms (some c) t = some (update_candle c t)

  abbrev pub Result : CandleManager W → Trade W → Type 0
  Result m t =
      (m' : CandleManager W) × (handle_trade m t ≡ some m')
      × (m'.interval_ms ≡ m.interval_ms)
      × ((k : Text)
          → find_candle k m'.candles ≡ (
              if text_eq t.instrument k
              then advance m.interval_ms (find_candle k m.candles) t
              else find_candle k m.candles))

  pub create-opened : (n : ℕ) (t : Trade W) → 0 < n → create_candle n t ≡ some (opened_candle n t)
  unfolding create_candle
  create-opened n t h = ground arith

  pub handle_trade-find : (m : CandleManager W) (t : Trade W) → 0 < m.interval_ms → Result m t
  unfolding handle_trade advance find_candle
  handle_trade-find m t h = elim (Option-cases (find_candle t.instrument m.candles)) [
    | inl e ↦
        let made = create-opened m.interval_ms t h in
        (
          record m { candles = (t.instrument, opened_candle m.interval_ms t) ∷ m.candles },
          ground arith,
          refl,
          λ k. ground (arith, text_eq_iff t.instrument k),
        )
    | inr (b, e) ↦ (
      record m { candles = replace_candle t.instrument (update_candle b t) m.candles },
      ground arith,
      refl,
      λ k. ground (
        arith,
        text_eq_iff t.instrument k,
        find-replace t.instrument k (update_candle b t) b m.candles e,
      ),
    )
  ]

  -- With a positive interval the trades of a message are all handled, and the candle of each
  -- instrument is the result of that instrument's trades alone, in order, from what it was.
  pub handle_trades-find :
      (m : CandleManager W) (ts : List (Trade W))
      → 0 < m.interval_ms
      → (m' : CandleManager W) × (handle_trades m ts ≡ some m')
        × (m'.interval_ms ≡ m.interval_ms)
        × ((k : Text)
            → find_candle k m'.candles
              ≡ foldl (advance m.interval_ms) (find_candle k m.candles) (trades_of k ts))
  unfolding handle_trades
  handle_trades-find m [] h = (m, refl, refl, λ k. refl)
  handle_trades-find m (t ∷ ts) h =
      let (m1, e1, i1, f1) = handle_trade-find m t h in
      let (m2, e2, i2, f2) = handle_trades-find m1 ts (rw i1 h) in
      (m2, ground arith, i2 ∙ i1, λ k. f2 k ∙ ground (arith, f1 k, i1))

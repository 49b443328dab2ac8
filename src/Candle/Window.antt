-- ===== src/Candle/Window.antt =====
-- candle_manager.cpp: the window that CreateCandle computes, and that UpdateCandle never moves.
use native.Mathlib.Nat.{div-add-mod, mul-mod_right, mod-lt}
use consolidated_book.Common.{
  ℕ, ◌+◌, ◌-◌, ◌*◌, ◌/◌, ◌%◌, ◌≤◌, ◌<◌, ◌≡◌, ◌⊎◌, inl, inr, none, some, text_eq_refl, arith, dec_lt,
}
use consolidated_book.Types.Double.{Double}
use consolidated_book.Types.Market.{Trade, Candle}
use consolidated_book.Candle.Manager.{
  CandleManager, find_candle, update_candle, opened_candle, create_candle, handle_trade,
}
use consolidated_book.Candle.Lookup.{advance, create-opened, handle_trade-find}

floor_eq : (a n : ℕ) → a - a % n ≡ n * (a / n)
floor_eq a n = omega (arith, div-add-mod a n)

floor-mod : (a n : ℕ) → (a - a % n) % n ≡ 0
floor-mod a n = rw (floor_eq a n) (mul-mod_right n (a / n))

module _ {W : Type 0} ⦃d : Double W⦄ where
  -- Creating a candle fails exactly at interval 0. Otherwise its window starts at a multiple of the
  -- interval and holds the trade's event time: start <= event_ts < start + interval.
  pub create_candle-window :
      (n : ℕ) (t : Trade W)
      → ((n ≡ 0) × (create_candle n t ≡ none))
        ⊎ ((c : Candle W) × (create_candle n t ≡ some c)
            × (c.window_start_ms % n ≡ 0)
            × (c.window_start_ms ≤ t.event_ts)
            × (t.event_ts < c.window_start_ms + n))
  unfolding create_candle opened_candle
  create_candle-window n t = elim (dec_lt 0 n) [
    | yes h ↦ inr (
      opened_candle n t,
      create-opened n t h,
      floor-mod t.event_ts n,
      omega arith,
      omega (arith, mod-lt t.event_ts h),
    )
    | no h ↦ inl (omega arith, ground arith)
  ]

  -- With a positive interval, a trade of a known instrument is merged into its candle, which keeps its open price and its
  -- window, whatever the trade's event time.
  pub handle_trade-merge :
      (m : CandleManager W) (t : Trade W) (c : Candle W)
      → 0 < m.interval_ms
      → find_candle t.instrument m.candles ≡ some c
      → (m' : CandleManager W) × (c' : Candle W) × (handle_trade m t ≡ some m')
        × (find_candle t.instrument m'.candles ≡ some c')
        × (c'.window_start_ms ≡ c.window_start_ms)
        × (c'.window_end_ms ≡ c.window_end_ms)
        × (c'.open_price ≡ c.open_price)
        × (c'.base_volume ≡ d.add c.base_volume t.qty)
  unfolding advance update_candle
  handle_trade-merge m t c h e =
      let (m', done, same, at) = handle_trade-find m t h in
      (
        m',
        update_candle c t,
        done,
        ground (arith, at t.instrument, text_eq_refl t.instrument),
        ground arith,
        ground arith,
        ground arith,
        ground arith,
      )

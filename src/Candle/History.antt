-- ===== src/Candle/History.antt =====
-- candle_manager.cpp: the candle of an instrument against the whole history of its trades.
use consolidated_book.Common.{
  ℕ, ◌≡◌, refl, sym, ◌⊎◌, inl, inr, List, [], ◌∷◌, true, false, All, Any, arith, map,
}
use mathlib.Core.List.{foldl}
use consolidated_book.Types.Double.{Double, IsNumber, IsOrdered}
use consolidated_book.Types.Market.{Trade, Candle}
use consolidated_book.Candle.Manager.{update_candle, opened_candle}
use consolidated_book.Candle.Range.{IsSane, updates-Covers, last_price}
use consolidated_book.Candle.Range.Order.{IsAtLeast, ge_refl}

-- The candle of an instrument whose trades are `first` and then `rest`.
unfoldable pub candle_of : {W : Type 0} ⦃d : Double W⦄ → ℕ → Trade W → List (Trade W) → Candle W
candle_of n first rest = foldl update_candle (opened_candle n first) rest

abbrev pub prices : {W : Type 0} → List (Trade W) → List W
prices = map (λ t. t.price)

abbrev pub IsHighest : {W : Type 0} ⦃d : Double W⦄ → W → List W → Type 0
IsHighest h ps = All (λ p. IsAtLeast h p) ps × Any (λ p. p ≡ h) ps

abbrev pub IsLowest : {W : Type 0} ⦃d : Double W⦄ → W → List W → Type 0
IsLowest l ps = All (λ p. IsAtLeast p l) ps × Any (λ p. p ≡ l) ps

All-prices :
    {W : Type 0} (P : W → Type 0) (ts : List (Trade W))
    → All (λ t. P t.price) ts
    → All P (prices ts)
All-prices P [] h = tt
All-prices P (t ∷ ts) h = (h.0, All-prices P ts h.1)

Any-prices :
    {W : Type 0} (P : W → Type 0) (ts : List (Trade W))
    → Any (λ t. P t.price) ts
    → Any P (prices ts)
Any-prices P [] h = elim h [ ]
Any-prices P (t ∷ ts) (inl h) = inl h
Any-prices P (t ∷ ts) (inr h) = inr (Any-prices P ts h)

attained :
    {W : Type 0} (h p : W) (ts : List (Trade W))
    → (h ≡ p) ⊎ Any (λ t. t.price ≡ h) ts
    → Any (λ q. q ≡ h) (p ∷ prices ts)
attained h p ts (inl e) = inl (sym e)
attained h p ts (inr a) = inr (Any-prices (λ q. q ≡ h) ts a)

module _ {W : Type 0} ⦃d : Double W⦄ where
  opened-IsSane :
      IsOrdered W → (n : ℕ) (t : Trade W) → IsNumber t.price → IsSane (opened_candle n t)
  unfolding opened_candle
  opened-IsSane o n t h = record {
    high_number = h;
    low_number = h;
    close_number = h;
    high-close = ge_refl o t.price h;
    close-low = ge_refl o t.price h;
  }

-- Where comparisons obey IsOrdered, the candle of a history of trades at prices that are numbers
-- opens at the first price, closes at the last (up to ==), and its high and low are the greatest and
-- the least of the prices.
pub candle_of-range :
    {W : Type 0} ⦃d : Double W⦄
    → IsOrdered W
    → (n : ℕ) (first : Trade W) (rest : List (Trade W)) → All (λ t. IsNumber t.price) (first ∷ rest)
    → ((candle_of n first rest).open_price ≡ first.price)
      × (d.eq (candle_of n first rest).close (last_price first.price rest) ≡ true)
      × IsHighest (candle_of n first rest).high (prices (first ∷ rest))
      × IsLowest (candle_of n first rest).low (prices (first ∷ rest))
unfolding candle_of opened_candle
candle_of-range o n first rest h =
    let v = updates-Covers o (opened_candle n first) rest (opened-IsSane o n first h.0) h.1 in
    (
      v.opens,
      v.closes first.price h.0,
      ((v.high_grows, All-prices _ rest v.high_covers), attained _ _ rest v.high_from),
      ((v.low_falls, All-prices _ rest v.low_covers), attained _ _ rest v.low_from),
    )

module _ {W : Type 0} ⦃d : Double W⦄ where
  updates-volumes :
      (c : Candle W) (ts : List (Trade W))
      → ((foldl update_candle c ts).base_volume ≡ foldl d.add c.base_volume (map (λ t. t.qty) ts))
        × ((foldl update_candle c ts).quote_volume
            ≡ foldl d.add c.quote_volume (map (λ t. d.mul t.price t.qty) ts))
  unfolding update_candle
  updates-volumes c [] = (refl, refl)
  updates-volumes c (t ∷ ts) = updates-volumes (update_candle c t) ts

  -- The volumes of a candle are the sums, in the order of arrival, of the quantities of all its
  -- trades and of their products with the prices, also where a price is unchanged or is NaN.
  pub candle_of-volumes :
      (n : ℕ) (first : Trade W) (rest : List (Trade W))
      → ((candle_of n first rest).base_volume ≡ foldl d.add first.qty (map (λ t. t.qty) rest))
        × ((candle_of n first rest).quote_volume
            ≡ foldl d.add (d.mul first.price first.qty) (map (λ t. d.mul t.price t.qty) rest))
  unfolding candle_of opened_candle
  candle_of-volumes n first rest = updates-volumes (opened_candle n first) rest

  updates-frozen :
      (c : Candle W) (ts : List (Trade W))
      → ((foldl update_candle c ts).window_start_ms ≡ c.window_start_ms)
        × ((foldl update_candle c ts).window_end_ms ≡ c.window_end_ms)
        × ((foldl update_candle c ts).interval_ms ≡ c.interval_ms)
        × ((foldl update_candle c ts).exchange ≡ c.exchange)
        × ((foldl update_candle c ts).instrument_id ≡ c.instrument_id)
        × ((foldl update_candle c ts).open_price ≡ c.open_price)
  unfolding update_candle
  updates-frozen c [] = (refl, refl, refl, refl, refl, refl)
  updates-frozen c (t ∷ ts) = ground (arith, updates-frozen (update_candle c t) ts)

  not-lt_nan : IsOrdered W → (x y : W) → d.eq x x ≡ false → (d.lt x y ≡ false) × (d.lt y x ≡ false)
  not-lt_nan o x y h = ground (arith, o.lt-number x y, o.lt-number y x)

  updates-nan :
      IsOrdered W
      → (c : Candle W) (ts : List (Trade W)) → d.eq c.high c.high ≡ false
      → d.eq c.low c.low ≡ false
      → ((foldl update_candle c ts).high ≡ c.high) × ((foldl update_candle c ts).low ≡ c.low)
  unfolding update_candle
  updates-nan o c [] h l = (refl, refl)
  updates-nan o c (t ∷ ts) h l = ground (
    arith,
    updates-nan o (update_candle c t) ts,
    not-lt_nan o c.high t.price h,
    not-lt_nan o c.low t.price l,
  )

  -- A candle whose first price is NaN keeps it as its high and its low, whatever trades follow.
  pub candle_of-nan :
      IsOrdered W
      → (n : ℕ) (first : Trade W) (rest : List (Trade W)) → d.eq first.price first.price ≡ false
      → ((candle_of n first rest).high ≡ first.price) × ((candle_of n first rest).low ≡ first.price)
  unfolding candle_of opened_candle
  candle_of-nan o n first rest h = updates-nan o (opened_candle n first) rest h h

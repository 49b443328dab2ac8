-- ===== src/Candle/Range.antt =====
-- candle_manager.cpp: what UpdateCandle does to the prices of a candle.
pub mod Order
use consolidated_book.Common.{
  ℕ, ◌≡◌, refl, ◌∙◌, ◌⊎◌, inl, inr, List, [], ◌∷◌, Bool, true, false, if◌then◌else◌, All, Any,
  arith, Bool-cases, map,
}
use mathlib.Core.List.{foldl}
use consolidated_book.Types.Double.{Double, IsNumber, IsOrdered}
use consolidated_book.Types.Market.{Trade, Candle}
use consolidated_book.Candle.Manager.{max_double, min_double, update_candle, opened_candle}
use Order.{IsAtLeast, ge_refl, ge_trans, ge_of_eq, max_bounds, min_bounds}

abbrev pub last_price : {W : Type 0} → W → List (Trade W) → W
last_price p [] = p
last_price p (t ∷ ts) = last_price t.price ts

-- A candle of numbers whose close lies between its low and its high.
pub record IsSane {W : Type 0} ⦃d : Double W⦄ (c : Candle W) : Type 0 where
  pub high_number : IsNumber c.high
  pub low_number : IsNumber c.low
  pub close_number : IsNumber c.close
  pub high-close : IsAtLeast c.high c.close
  pub close-low : IsAtLeast c.close c.low

module _ {W : Type 0} ⦃d : Double W⦄ (o : IsOrdered W) where
  pub record Grows (c c' : Candle W) (p : W) : Type 0 where
    pub sane : IsSane c'
    pub high_grows : IsAtLeast c'.high c.high
    pub high_covers : IsAtLeast c'.high p
    pub high_from : (c'.high ≡ c.high) ⊎ (c'.high ≡ p)
    pub low_falls : IsAtLeast c.low c'.low
    pub low_covers : IsAtLeast p c'.low
    pub low_from : (c'.low ≡ c.low) ⊎ (c'.low ≡ p)
    pub closes : d.eq c'.close p ≡ true
    pub opens : c'.open_price ≡ c.open_price

  -- A trade at the close's own price changes no price.
  stay-Grows :
      (c : Candle W) (p b q : W)
      → IsSane c
      → d.eq c.close p ≡ true
      → Grows c (record c { base_volume = b; quote_volume = q }) p
  stay-Grows c p b q s e = ground (
    arith,
    o.eq_symm c.close p e,
    ge_of_eq o c.close p e,
    ge_of_eq o p c.close,
    ge_trans o c.high c.close p,
    ge_trans o p c.close c.low,
    ge_refl o c.high,
    ge_refl o c.low,
  )

  move-Grows :
      (c : Candle W) (p b q : W)
      → IsSane c
      → IsNumber p
      → Grows c
          (record c {
            high = max_double c.high p;
            low = min_double c.low p;
            close = p;
            base_volume = b;
            quote_volume = q;
          })
          p
  move-Grows c p b q s h =
      let (hi, hi_p, hi_from) = max_bounds o c.high p s.high_number h in
      let (lo, lo_p, lo_from) = min_bounds o c.low p s.low_number h in
      record {
        sane = record {
          high_number = hi.0;
          low_number = lo.1;
          close_number = h;
          high-close = hi_p;
          close-low = lo_p;
        };
        high_grows = hi;
        high_covers = hi_p;
        high_from = hi_from;
        low_falls = lo;
        low_covers = lo_p;
        low_from = lo_from;
        closes = h;
        opens = refl;
      }

  pub update-Grows :
      (c : Candle W) (t : Trade W)
      → IsSane c
      → IsNumber t.price
      → Grows c (update_candle c t) t.price
  unfolding update_candle
  update-Grows c t s h = elim (Bool-cases (d.eq c.close t.price)) [
    | inl same ↦ rw same (stay-Grows c t.price _ _ s same)
    | inr moved ↦ rw moved (move-Grows c t.price _ _ s h)
  ]

  -- The prices of a candle `c'` after the trades `ts` on a candle `c`.
  pub record Covers (c c' : Candle W) (ts : List (Trade W)) : Type 0 where
    pub sane : IsSane c'
    pub opens : c'.open_price ≡ c.open_price
    pub high_grows : IsAtLeast c'.high c.high
    pub high_covers : All (λ t. IsAtLeast c'.high t.price) ts
    pub high_from : (c'.high ≡ c.high) ⊎ Any (λ t. t.price ≡ c'.high) ts
    pub low_falls : IsAtLeast c.low c'.low
    pub low_covers : All (λ t. IsAtLeast t.price c'.low) ts
    pub low_from : (c'.low ≡ c.low) ⊎ Any (λ t. t.price ≡ c'.low) ts
    pub closes : (last : W) → d.eq c.close last ≡ true → d.eq c'.close (last_price last ts) ≡ true

  pub updates-Covers :
      (c : Candle W) (ts : List (Trade W))
      → IsSane c
      → All (λ t. IsNumber t.price) ts
      → Covers c (foldl update_candle c ts) ts
  updates-Covers c [] s h = record {
    sane = s;
    opens = refl;
    high_grows = ge_refl o c.high s.high_number;
    high_covers = tt;
    high_from = inl refl;
    low_falls = ge_refl o c.low s.low_number;
    low_covers = tt;
    low_from = inl refl;
    closes = λ last e. e;
  }
  updates-Covers c (t ∷ ts) s h =
      let g = update-Grows c t s h.0 in
      let r = updates-Covers (update_candle c t) ts g.sane h.1 in
      record {
        sane = r.sane;
        opens = r.opens ∙ g.opens;
        high_grows = ge_trans o _ _ _ r.high_grows g.high_grows;
        high_covers = (ge_trans o _ _ _ r.high_grows g.high_covers, r.high_covers);
        high_from = ground (arith, g.high_from, r.high_from);
        low_falls = ge_trans o _ _ _ g.low_falls r.low_falls;
        low_covers = (ge_trans o _ _ _ g.low_covers r.low_falls, r.low_covers);
        low_from = ground (arith, g.low_from, r.low_from);
        closes = λ last e. r.closes t.price g.closes;
      }

-- ===== src/Feed/Trades/Names.antt =====
-- The names of the exchange and of the instrument in the trades that are pushed.
use mathlib.Core.List.{Sublistᴰ}
use consolidated_book.Common.{
  ℕ, suc, ◌<◌, ◌≢◌, ◌≡◌, refl, sym, ◌⊎◌, List, [], ◌∷◌, ◌++◌, Option, none, some, Text, codes, map,
  All, arith, subst,
}
use consolidated_book.Common.Int.{ℤ}
use consolidated_book.Standard.{Result, ok, err, ◌>>=◌, to_string, stoll}
use consolidated_book.Feed.{to_upper, remove_hyphens}
use consolidated_book.Feed.Trades.{
  ProviderTrade, Unstamped, Platform, TradeFeed, clock, text, int64, converted, numbered,
  binance_fill, bybit_fill, okx_fill,
}
use consolidated_book.Feed.Providers.{ProviderConfig, on_messages, Venue, provider}
use consolidated_book.Feed.Trades.Contents.{
  good, binance_trades, bybit_trades, okx_trades, trades, all_trades,
}
use consolidated_book.Feed.Trades.Pushes.{PipeLaws, stamped, messages-Kept}

-- A trade with the venue's own name, and an instrument in its normal form.
abbrev pub IsNamed : {W : Type 0} → Venue → ProviderTrade W → Type 0
IsNamed Venue.binance t =
    (t.exchange ≡ codes "BINANCE") × All (λ c. (c < 97) ⊎ (122 < c)) t.instrument
IsNamed Venue.bybit t = t.exchange ≡ codes "BYBIT"
IsNamed Venue.okx t = (t.exchange ≡ codes "OKX") × All (λ c. c ≢ b'-') t.instrument

to_upper-upper : (s : Text) → All (λ c. (c < 97) ⊎ (122 < c)) (map to_upper s)
unfolding to_upper
to_upper-upper [] = tt
to_upper-upper (c ∷ s) = (ground arith, to_upper-upper s)

remove_hyphens-clean : (s : Text) → All (λ c. c ≢ b'-') (remove_hyphens s)
unfolding remove_hyphens
remove_hyphens-clean [] = tt
remove_hyphens-clean (c ∷ s) = ground (arith, remove_hyphens-clean s)

-- What a result returns, if it returns, satisfies the predicate.
abbrev Ensures : {A : Type 0} → (A → Type 0) → Result A → Type 0
Ensures Q (ok a) = Q a
Ensures Q (err x) = Unit

bind-Ensures :
    {A B : Type 0} (P : A → Type 0) (Q : B → Type 0) (r : Result A) (f : A → Result B)
    → Ensures P r
    → ((a : A) → P a → Ensures Q (f a))
    → Ensures Q (r >>= f)
bind-Ensures P Q (ok a) f h k = k a h
bind-Ensures P Q (err x) f h k = tt

any-Ensures : {A : Type 0} (r : Result A) → Ensures (λ a. Unit) r
any-Ensures (ok a) = tt
any-Ensures (err x) = tt

converted-Ensures :
    (P : Text → Type 0) (o : Option Text) (g : Text → Text)
    → P []
    → ((s : Text) → P (g s))
    → Ensures P (converted o [] (λ s. ok (g s)))
converted-Ensures P none g h k = h
converted-Ensures P (some s) g h k = k s

All-Sublistᴰ : {A : Type 0} (P : A → Type 0) {xs ys : List A} → Sublistᴰ xs ys → All P ys → All P xs
All-Sublistᴰ P Sublistᴰ.slnil h = tt
All-Sublistᴰ P (Sublistᴰ.cons-cons e s) h = (subst P (sym e) h.0, All-Sublistᴰ P s h.1)
All-Sublistᴰ P (Sublistᴰ.cons s) h = All-Sublistᴰ P s h.1

All-append : {A : Type 0} (P : A → Type 0) (xs ys : List A) → All P xs → All P ys → All P (xs ++ ys)
All-append P [] ys h k = k
All-append P (x ∷ xs) ys h k = (h.0, All-append P xs ys h.1 k)

item-Ensures :
    {A : Type 0} (P : A → Type 0) (r : Result A) (rest : List A)
    → Ensures P r
    → All P rest
    → All P (elim r [ ok a ↦ a ∷ rest | err x ↦ [] ])
item-Ensures P (ok a) rest h k = (h, k)
item-Ensures P (err x) rest h k = tt

good-Ensures :
    {V A : Type 0} (P : A → Type 0) (fill : V → Result A) (vs : List V)
    → ((v : V) → Ensures P (fill v))
    → All P (good fill vs)
good-Ensures P fill [] h = tt
good-Ensures P fill (v ∷ vs) h =
    item-Ensures P (fill v) (good fill vs) (h v) (good-Ensures P fill vs h)

module _ {V W M : Type 0} (e : Platform V W M) where
  abbrev AlwaysNamed : Venue → Unstamped W → Type 0
  AlwaysNamed x t = (now : ℤ) → IsNamed x (t now)

  binance_fill-Ensures : (doc : V) → Ensures (AlwaysNamed Venue.binance) (binance_fill e doc)
  unfolding binance_fill
  binance_fill-Ensures doc =
      bind-Ensures (All (λ c. (c < 97) ⊎ (122 < c))) _ _ _
        (converted-Ensures _ (text e doc (codes "s")) (map to_upper) tt to_upper-upper)
        (λ instrument upper.
          bind-Ensures (λ i. Unit) _ _ _
            (any-Ensures (converted (int64 e doc (codes "t")) [] (λ i. ok (to_string i))))
            (λ trade_id u.
              bind-Ensures (λ i. Unit) _ _ _
                (any-Ensures (numbered (text e doc (codes "p")) e.stod))
                (λ price v.
                  bind-Ensures (λ i. Unit) _ _ _
                    (any-Ensures (numbered (text e doc (codes "q")) e.stod))
                    (λ qty w. λ now. (refl, upper)))))

  bybit_fill-Ensures : (item : V) → Ensures (AlwaysNamed Venue.bybit) (bybit_fill e item)
  unfolding bybit_fill
  bybit_fill-Ensures item =
      bind-Ensures (λ i. Unit) _ _ _
        (any-Ensures (converted (text e item (codes "s")) [] (λ s. ok s)))
        (λ instrument u.
          bind-Ensures (λ i. Unit) _ _ _
            (any-Ensures (converted (text e item (codes "i")) [] (λ i. ok i)))
            (λ trade_id v.
              bind-Ensures (λ i. Unit) _ _ _
                (any-Ensures (numbered (text e item (codes "p")) e.stod))
                (λ price w.
                  bind-Ensures (λ i. Unit) _ _ _
                    (any-Ensures (numbered (text e item (codes "v")) e.stod))
                    (λ qty x. λ now. refl))))

  okx_fill-Ensures : (item : V) → Ensures (AlwaysNamed Venue.okx) (okx_fill e item)
  unfolding okx_fill
  okx_fill-Ensures item =
      bind-Ensures (All (λ c. c ≢ b'-')) _ _ _
        (converted-Ensures _ (text e item (codes "instId")) remove_hyphens tt remove_hyphens-clean)
        (λ instrument clean.
          bind-Ensures (λ i. Unit) _ _ _
            (any-Ensures (converted (text e item (codes "tradeId")) [] (λ i. ok i)))
            (λ trade_id u.
              bind-Ensures (λ i. Unit) _ _ _
                (any-Ensures (numbered (text e item (codes "px")) e.stod))
                (λ price v.
                  bind-Ensures (λ i. Unit) _ _ _
                    (any-Ensures (numbered (text e item (codes "sz")) e.stod))
                    (λ qty w.
                      bind-Ensures (λ i. Unit) _ _ _
                        (any-Ensures (numbered (text e item (codes "ts")) stoll))
                        (λ ts y. λ now. (refl, clean))))))

  trades-AlwaysNamed : (x : Venue) (message : Text) → All (AlwaysNamed x) (trades e x message)
  unfolding binance_trades bybit_trades okx_trades
  trades-AlwaysNamed Venue.binance message = good-Ensures _ (binance_fill e) _ binance_fill-Ensures
  trades-AlwaysNamed Venue.bybit message = good-Ensures _ (bybit_fill e) _ bybit_fill-Ensures
  trades-AlwaysNamed Venue.okx message = good-Ensures _ (okx_fill e) _ okx_fill-Ensures

  all_trades-AlwaysNamed :
      (x : Venue) (messages : List Text) → All (AlwaysNamed x) (all_trades e x messages)
  all_trades-AlwaysNamed x [] = tt
  all_trades-AlwaysNamed x (message ∷ messages) =
      All-append _ (trades e x message) _ (trades-AlwaysNamed x message)
        (all_trades-AlwaysNamed x messages)

  stamped-IsNamed :
      (x : Venue) (n : ℕ) (ts : List (Unstamped W))
      → All (AlwaysNamed x) ts
      → All (IsNamed x) (stamped e n ts)
  stamped-IsNamed x n [] h = tt
  stamped-IsNamed x n (t ∷ ts) h = (h.0 (clock e n), stamped-IsNamed x (suc n) ts h.1)

module _ {V W M : Type 0} {e : Platform V W M} {held : M → List (ProviderTrade W)}
    (laws : PipeLaws e held) where
  -- With a pipe that keeps PipeLaws: if the trades in it carry a provider's name of the exchange and, for
  -- OKX, an instrument without hyphens, or for Binance one without lower-case letters, then so do those
  -- after any messages.
  pub messages-IsNamed :
      (config : ProviderConfig M) (x : Venue) (f : TradeFeed M) (m : M) (messages : List Text)
      → f.pipe_manager ≡ some m
      → All (IsNamed x) (held m)
      → (m' : M) × ((on_messages (provider e config x) f messages).pipe_manager ≡ some m')
        × All (IsNamed x) (held m')
  messages-IsNamed config x f m messages h named =
      let k = messages-Kept laws config x f m messages h in
      let new =
        All-Sublistᴰ (IsNamed x) k.ordered
          (stamped-IsNamed e x f.readings _ (all_trades-AlwaysNamed e x messages)) in
      (
        k.pipe,
        k.leads,
        subst (All (IsNamed x)) (sym k.appended) (All-append (IsNamed x) (held m) k.kept named new),
      )

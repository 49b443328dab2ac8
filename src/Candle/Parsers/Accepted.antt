-- ===== src/Candle/Parsers/Accepted.antt =====
-- binance_spot_parser.h and bybit_spot_parser.h: the trades of a message that is accepted.
use consolidated_book.Common.{
  ℕ, suc, ◌≡◌, refl, ap, subst, List, [], ◌∷◌, Option, none, some, Text, codes, length, arith,
}
use consolidated_book.Feed.{extract_symbol}
use consolidated_book.Json.{read_field}
use consolidated_book.Types.Exchange.{Exchange}
use consolidated_book.Types.Market.{Trade}
use consolidated_book.Candle.Parsers.{
  Reader, Parsed, accepted, ◌>>=◌, checked, required, bybit_trade, bybit_trades, bybit_parse,
}

-- What holds of the result if there is one.
abbrev Holds : {A : Type 0} → (A → Type 0) → Parsed A → Type 0
Holds P (Parsed.accepted a) = P a
Holds P Parsed.refused = Unit
Holds P Parsed.terminated = Unit

bind-Holds :
    {A B : Type 0} (P : B → Type 0) (p : Parsed A) (f : A → Parsed B)
    → ((a : A) → p ≡ accepted a → Holds P (f a))
    → Holds P (p >>= f)
bind-Holds P (Parsed.accepted a) f h = h a refl
bind-Holds P Parsed.refused f h = tt
bind-Holds P Parsed.terminated f h = tt

map-Holds :
    {A : Type 0} (P Q : A → Type 0) (p : Parsed A) → ((a : A) → P a → Q a) → Holds P p → Holds Q p
map-Holds P Q (Parsed.accepted a) f h = f a h
map-Holds P Q Parsed.refused f h = tt
map-Holds P Q Parsed.terminated f h = tt

checked_inv : {A : Type 0} (o : Option A) (a : A) → checked o ≡ accepted a → o ≡ some a
checked_inv none a h = cc
checked_inv (some x) a h = cc

-- What the trades of one message have in common.
abbrev pub IsFrom : {W : Type 0} → Exchange → Text → ℕ → ℕ → Trade W → Type 0
IsFrom e symbol event_ts now t =
    (t.exchange ≡ e) × (t.instrument ≡ symbol) × (t.event_ts ≡ event_ts) × (t.recv_ts ≡ now)

module _ {V W : Type 0} (r : Reader V W) where
  bybit_trade-Holds :
      (now : ℕ) (symbol : Text) (event_ts : ℕ) (item : V)
      → Holds (IsFrom Exchange.bybit symbol event_ts now) (bybit_trade r now symbol event_ts item)
  unfolding bybit_trade
  bybit_trade-Holds now symbol event_ts item =
      let P : Trade W → Type 0 = IsFrom Exchange.bybit symbol event_ts now in
      bind-Holds P (checked (r.json.get_object item)) _ λ v e1.
        bind-Holds P (required (read_field r.json r.json.get_uint64 v (codes "T"))) _ λ trade_ts e2.
          bind-Holds P (required (read_field r.json r.json.get_string v (codes "i"))) _ λ i e3.
            bind-Holds P (required (read_field r.json r.json.get_string v (codes "p"))) _ λ p e4.
              bind-Holds P (required (read_field r.json r.json.get_string v (codes "v"))) _
                λ q e5. ground arith

  -- As many trades as items, all of them from the same message.
  abbrev pub EachFrom : (ℕ → ℕ) → Text → ℕ → List (Trade W) → Type 0
  EachFrom clock symbol event_ts [] = Unit
  EachFrom clock symbol event_ts (t ∷ ts) =
      IsFrom Exchange.bybit symbol event_ts (clock 0) t
      × EachFrom (λ n. clock (suc n)) symbol event_ts ts

  abbrev pub AllFrom : (ℕ → ℕ) → Text → ℕ → List V → List (Trade W) → Type 0
  AllFrom clock symbol event_ts items ts =
      (length ts ≡ length items) × EachFrom clock symbol event_ts ts

  both :
      (clock : ℕ → ℕ) (symbol : Text) (event_ts : ℕ) (item : V) (items : List V) (t : Trade W)
      (ts : List (Trade W))
      → IsFrom Exchange.bybit symbol event_ts (clock 0) t
      → AllFrom (λ n. clock (suc n)) symbol event_ts items ts
      → Holds (AllFrom clock symbol event_ts (item ∷ items)) (accepted (t ∷ ts))
  both clock symbol event_ts item items t ts one rest = (ap suc rest.0, (one, rest.1))

  bybit_trades-Holds :
      (clock : ℕ → ℕ) (symbol : Text) (event_ts : ℕ) (items : List V)
      → Holds (AllFrom clock symbol event_ts items) (bybit_trades r clock symbol event_ts items)
  unfolding bybit_trades
  bybit_trades-Holds clock symbol event_ts [] = (refl, tt)
  bybit_trades-Holds clock symbol event_ts (item ∷ items) =
      bind-Holds (AllFrom clock symbol event_ts (item ∷ items))
        (bybit_trade r (clock 0) symbol event_ts item) _
        λ t e.
          bind-Holds (AllFrom clock symbol event_ts (item ∷ items))
            (bybit_trades r (λ n. clock (suc n)) symbol event_ts items) _
            λ ts e'.
              let one =
                subst (Holds (IsFrom Exchange.bybit symbol event_ts (clock 0))) e
                  (bybit_trade-Holds (clock 0) symbol event_ts item) in
              let rest =
                subst (Holds (AllFrom (λ n. clock (suc n)) symbol event_ts items)) e'
                  (bybit_trades-Holds (λ n. clock (suc n)) symbol event_ts items) in
              both clock symbol event_ts item items t ts one rest

  abbrev Common : (ℕ → ℕ) → List (Trade W) → Type 0
  Common clock ts =
      (root : V) × (topic : Text) × (event_ts : ℕ) × (items : List V) × (read_field r.json
          r.json.get_string root (codes "topic")
        ≡ some topic)
      × (read_field r.json r.json.get_uint64 root (codes "ts") ≡ some event_ts)
      × (read_field r.json r.json.get_array root (codes "data") ≡ some items)
      × AllFrom clock (extract_symbol topic) event_ts items ts

  bybit_parse-Holds : (clock : ℕ → ℕ) (msg : Text) → Holds (Common clock) (bybit_parse r clock msg)
  unfolding bybit_parse
  bybit_parse-Holds clock msg =
      let P : List (Trade W) → Type 0 = Common clock in
      bind-Holds P (checked (r.json.iterate msg)) _ λ doc e1.
        bind-Holds P (checked (r.json.get_object doc)) _ λ root e2.
          bind-Holds P (checked (read_field r.json r.json.get_string root (codes "topic"))) _
            λ topic e3.
              bind-Holds P (checked (read_field r.json r.json.get_string root (codes "type"))) _
                λ kind e4.
                  bind-Holds P (checked (read_field r.json r.json.get_uint64 root (codes "ts"))) _
                    λ event_ts e5.
                      bind-Holds P
                        (checked (read_field r.json r.json.get_array root (codes "data"))) _
                        λ items e6.
                          map-Holds (AllFrom clock (extract_symbol topic) event_ts items) P
                            (bybit_trades r clock (extract_symbol topic) event_ts items)
                            (λ ts all. (
                              root,
                              topic,
                              event_ts,
                              items,
                              checked_inv _ topic e3,
                              checked_inv _ event_ts e5,
                              checked_inv _ items e6,
                              all,
                            ))
                            (bybit_trades-Holds clock (extract_symbol topic) event_ts items)

  -- The trades of a Bybit message that is accepted are as many as the items of its data, and each of
  -- them is a Bybit trade of the symbol in the topic, at the time "ts" of the message.
  pub bybit_parse-accepted :
      (clock : ℕ → ℕ) (msg : Text) (ts : List (Trade W))
      → bybit_parse r clock msg ≡ accepted ts
      → (root : V) × (topic : Text) × (event_ts : ℕ) × (items : List V) × (read_field r.json
            r.json.get_string root
            (codes "topic")
          ≡ some topic)
        × (read_field r.json r.json.get_uint64 root (codes "ts") ≡ some event_ts)
        × (read_field r.json r.json.get_array root (codes "data") ≡ some items)
        × AllFrom clock (extract_symbol topic) event_ts items ts
  bybit_parse-accepted clock msg ts e = subst (Holds (Common clock)) e (bybit_parse-Holds clock msg)

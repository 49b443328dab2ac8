-- ===== src/Candle/Calls.antt =====
-- candle_manager.cpp: a CandleManager under any sequence of calls of its public functions, against a
-- manager that remembers the trades and makes the candles of them when it is asked.
use mathlib.Core.List.{foldl, foldl-append}
use consolidated_book.Common.{
  ℕ, ◌<◌, ◌≡◌, ◌≢◌, refl, sym, subst, ap, ◌∙◌, ◌⊎◌, List, [], ◌∷◌, ◌++◌, Option, none, some, Text,
  arith, All, Any, inl, inr, Option-cases, Bool-cases, map, text_eq, text_eq_iff,
}
use consolidated_book.Types.Double.{Double}
use consolidated_book.Types.Market.{Trade, Candle}
use consolidated_book.Candle.Manager.{
  Candles, CandleManager, candle_manager, find_candle, handle_trade, handle_trades, handle_message,
  get_candles_snapshot,
}
use consolidated_book.Candle.Manager
use consolidated_book.Candle.Parsers.{Parsed}
use consolidated_book.Candle.Lookup.{advance, trades_of, handle_trades-find}
use consolidated_book.Candle.Snapshot.{IsKeyed, handle_trades-IsKeyed}

-- The public functions.
pub data Call (W : Type 0) : Type 0 where
  message : Text → Call W  -- HandleMessage
  trade : Trade W → Call W  -- HandleTrade
  ask : Call W  -- GetCandlesSnapshot

-- A message that the parser refuses brings no trades.
abbrev pub trades_in : {A : Type 0} → Parsed (List A) → List A
trades_in (Parsed.accepted trades) = trades
trades_in p = []

abbrev keys : {A : Type 0} → List (Text × A) → List Text
keys [] = []
keys ((k, a) ∷ m) = k ∷ keys m

abbrev pub AreDistinct : List Text → Type 0
AreDistinct [] = Unit
AreDistinct (k ∷ ks) = All (λ j. j ≢ k) ks × AreDistinct ks

module _ {W : Type 0} ⦃d : Double W⦄ (parse : Text → Parsed (List (Trade W))) where
  -- A call, with the snapshot that it returns, if it returns one.
  unfoldable pub call : CandleManager W → Call W → Option (CandleManager W × List (List (Candle W)))
  call m (Call.message s) = elim (handle_message parse m s) [
    | none ↦ none
    | some m' ↦ some (m', [])
  ]
  call m (Call.trade t) = elim (handle_trade m t) [ none ↦ none | some m' ↦ some (m', []) ]
  call m Call.ask = some (m, get_candles_snapshot m ∷ [])

  -- The calls one after the other, with the snapshots in the order in which they are returned.
  unfoldable pub calls :
      CandleManager W → List (Call W) → Option (CandleManager W × List (List (Candle W)))
  calls m [] = some (m, [])
  calls m (c ∷ cs) = elim (call m c) [
    | none ↦ none
    | some (m', now) ↦ elim (calls m' cs) [
      | none ↦ none
      | some (m'', later) ↦ some (m'', now ++ later)
    ]
  ]

  -- The trades that a call brings.
  abbrev pub brings : Call W → List (Trade W)
  brings (Call.message s) = trades_in (parse s)
  brings (Call.trade t) = t ∷ []
  brings Call.ask = []

module _ {W : Type 0} ⦃d : Double W⦄ where
  abbrev pub candle_by : ℕ → List (Trade W) → Text → Option (Candle W)
  candle_by n ts k = foldl (advance n) none (trades_of k ts)

  -- A snapshot of the candles that the trades `ts` make: one for each of some instruments, no two of them
  -- the same, made of its trades in their order; every instrument traded is one of them.
  abbrev pub Shows : ℕ → List (Trade W) → List (Candle W) → Type 0
  Shows n ts shown =
      (ks : List Text) × AreDistinct ks
      × (map some shown ≡ map (candle_by n ts) ks)
      × ((k : Text) (c : Candle W) → candle_by n ts k ≡ some c → Any (λ j. j ≡ k) ks)

  -- What the calls return, where the trades `ts` came before: each snapshot shows the candles of all
  -- trades up to it.
  abbrev pub Answers :
      (Text → Parsed (List (Trade W)))
      → ℕ
      → List (Trade W)
      → List (Call W)
      → List (List (Candle W))
      → Type 0
  Answers parse n ts [] shown = shown ≡ []
  Answers parse n ts (Call.ask ∷ cs) shown =
      (now : List (Candle W)) × (later : List (List (Candle W))) × (shown ≡ now ∷ later)
      × Shows n ts now
      × Answers parse n ts cs later
  Answers parse n ts (Call.message s ∷ cs) shown =
      Answers parse n (ts ++ brings parse (Call.message s)) cs shown
  Answers parse n ts (Call.trade t ∷ cs) shown = Answers parse n (ts ++ t ∷ []) cs shown

  -- A manager whose candles are those of the trades `ts`.
  pub record Tracks (n : ℕ) (ts : List (Trade W)) (m : CandleManager W) : Type 0 where
    pub interval : m.interval_ms ≡ n
    pub keyed : IsKeyed m.candles
    pub made : (k : Text) → find_candle k m.candles ≡ foldl (advance n) none (trades_of k ts)

  trades_of-append :
      (k : Text) (xs ys : List (Trade W))
      → trades_of k (xs ++ ys) ≡ trades_of k xs ++ trades_of k ys
  trades_of-append k [] ys = refl
  trades_of-append k (x ∷ xs) ys = ground (arith, trades_of-append k xs ys)

  handle_trades-Tracks :
      (n : ℕ) (ts more : List (Trade W)) (m : CandleManager W)
      → 0 < n
      → Tracks n ts m
      → (m' : CandleManager W) × (handle_trades m more ≡ some m') × Tracks n (ts ++ more) m'
  handle_trades-Tracks n ts more m h v =
      let (m', done, same, at) = handle_trades-find m more (rw v.interval h) in
      (
        m',
        done,
        record {
          interval = same ∙ v.interval;
          keyed = handle_trades-IsKeyed m m' more v.keyed done;
          made = λ k.
              at k
              ∙ ap (λ o. foldl (advance m.interval_ms) o (trades_of k more)) (v.made k)
              ∙ ap
                  (λ i.
                    foldl (advance i) (foldl (advance n) none (trades_of k ts)) (trades_of k more))
                  v.interval
              ∙ sym (foldl-append (advance n) none (trades_of k ts) (trades_of k more))
              ∙ ap (foldl (advance n) none) (sym (trades_of-append k ts more));
        },
      )

  find-keys : (k : Text) (m : Candles W) → find_candle k m ≡ none → All (λ j. j ≢ k) (keys m)
  unfolding find_candle
  find-keys k [] h = tt
  find-keys k ((j, c) ∷ m) h = elim (Bool-cases (text_eq j k)) [
    | inl same ↦ ground arith
    | inr other ↦ (
      λ e. ground (arith, (text_eq_iff j k).1 e, other),
      find-keys k m (ground (arith, other, h)),
    )
  ]

  IsKeyed-keys : (m : Candles W) → IsKeyed m → AreDistinct (keys m)
  IsKeyed-keys [] h = tt
  IsKeyed-keys ((k, c) ∷ m) h = (find-keys k m h.0, IsKeyed-keys m h.1)

  keys-found :
      (k : Text) (c : Candle W) (m : Candles W)
      → find_candle k m ≡ some c
      → Any (λ j. j ≡ k) (keys m)
  unfolding find_candle
  keys-found k c [] h = cc
  keys-found k c ((j, b) ∷ m) h = elim (Bool-cases (text_eq j k)) [
    | inl same ↦ inl ((text_eq_iff j k).0 same)
    | inr other ↦ inr (keys-found k c m (ground (arith, other, h)))
  ]

  found_here : (k : Text) (c : Candle W) (m : Candles W) → find_candle k ((k, c) ∷ m) ≡ some c
  unfolding find_candle
  found_here k c m = ground (arith, (text_eq_iff k k).1 refl)

  found_later :
      (k j : Text) (c b : Candle W) (m : Candles W)
      → find_candle k m ≡ none
      → find_candle j m ≡ some b
      → find_candle j ((k, c) ∷ m) ≡ some b
  unfolding find_candle
  found_later k j c b m miss hit = elim (Bool-cases (text_eq k j)) [
    | inl same ↦
        let e = (text_eq_iff k j).0 same in
        let missed = subst (λ i. find_candle i m ≡ none) e miss in cc
    | inr other ↦ ground (arith, other, hit)
  ]

  -- The snapshot goes through the keys.
  snapshot-keys :
      (f : Text → Option (Candle W)) (m : Candles W)
      → ((k : Text) (c : Candle W) → find_candle k m ≡ some c → f k ≡ some c)
      → IsKeyed m
      → map some (Manager.snapshot m) ≡ map f (keys m)
  unfolding Manager.snapshot
  snapshot-keys f [] h v = refl
  snapshot-keys f ((k, c) ∷ m) h v =
      let one : f k ≡ some c = h k c (found_here k c m) in
      let rest = snapshot-keys f m (λ j b e. h j b (found_later k j c b m v.0 e)) v.1 in
      ap (λ r. some c ∷ r) rest ∙ ap (λ o. o ∷ map f (keys m)) (sym one)

  Tracks-Shows :
      (n : ℕ) (ts : List (Trade W)) (m : CandleManager W)
      → Tracks n ts m
      → Shows n ts (get_candles_snapshot m)
  unfolding get_candles_snapshot
  Tracks-Shows n ts m v = (
    keys m.candles,
    IsKeyed-keys m.candles v.keyed,
    snapshot-keys (candle_by n ts) m.candles (λ k c e. sym (v.made k) ∙ e) v.keyed,
    λ k c e. keys-found k c m.candles (v.made k ∙ e),
  )

  handle_trade-trades :
      (m m' : CandleManager W) (t : Trade W)
      → handle_trades m (t ∷ []) ≡ some m'
      → handle_trade m t ≡ some m'
  unfolding handle_trades
  handle_trade-trades m m' t h = elim (Option-cases (handle_trade m t)) [
    | inl fault ↦ ground arith
    | inr (m1, one) ↦ ground arith
  ]

Parsed-cases :
    {A : Type 0} (p : Parsed (List A))
    → p ≢ Parsed.terminated
    → (p ≡ Parsed.refused) ⊎ (p ≡ Parsed.accepted (trades_in p))
Parsed-cases (Parsed.accepted trades) h = inr refl
Parsed-cases Parsed.refused h = inl refl
Parsed-cases Parsed.terminated h = absurd (h refl)

handle_message-trades_in :
    {W : Type 0} ⦃d : Double W⦄ (parse : Text → Parsed (List (Trade W))) (m : CandleManager W)
    (s : Text)
    → parse s ≢ Parsed.terminated
    → handle_message parse m s ≡ handle_trades m (trades_in (parse s))
unfolding handle_message handle_trades
handle_message-trades_in parse m s h = elim (Parsed-cases (parse s) h) [
  | inl e ↦ ground (arith, e)
  | inr e ↦ ground (arith, e)
]

-- The parser ends the program on none of the messages.
abbrev pub AreParsed : {W : Type 0} → (Text → Parsed (List (Trade W))) → List (Call W) → Type 0
AreParsed parse [] = Unit
AreParsed parse (Call.message s ∷ cs) = (parse s ≢ Parsed.terminated) × AreParsed parse cs
AreParsed parse (c ∷ cs) = AreParsed parse cs

module _ {W : Type 0} ⦃d : Double W⦄ (parse : Text → Parsed (List (Trade W))) (n : ℕ)
    (positive : 0 < n) where
  abbrev Served : List (Trade W) → CandleManager W → List (Call W) → Type 0
  Served ts m cs =
      (m' : CandleManager W) × (shown : List (List (Candle W))) × (calls parse m cs
        ≡ some (m', shown))
      × Answers parse n ts cs shown

  calls_step :
      (m m1 m' : CandleManager W) (c : Call W) (cs : List (Call W))
      (now later : List (List (Candle W)))
      → call parse m c ≡ some (m1, now)
      → calls parse m1 cs ≡ some (m', later)
      → calls parse m (c ∷ cs) ≡ some (m', now ++ later)
  unfolding calls
  calls_step m m1 m' c cs now later one rest = ground (arith, one, rest)

  serve :
      (ts : List (Trade W)) (m : CandleManager W) (cs : List (Call W))
      → Tracks n ts m
      → AreParsed parse cs
      → Served ts m cs
  unfolding calls call
  serve ts m [] v h = (m, [], refl, refl)
  serve ts m (Call.ask ∷ cs) v h =
      let (m', shown, rest, answers) = serve ts m cs v h in
      (
        m',
        get_candles_snapshot m ∷ shown,
        calls_step m m m' Call.ask cs (get_candles_snapshot m ∷ []) shown refl rest,
        (get_candles_snapshot m, shown, refl, Tracks-Shows n ts m v, answers),
      )
  serve ts m (Call.trade t ∷ cs) v h =
      let (m1, one, v1) = handle_trades-Tracks n ts (t ∷ []) m positive v in
      let (m', shown, rest, answers) = serve (ts ++ t ∷ []) m1 cs v1 h in
      (
        m',
        shown,
        calls_step m m1 m' (Call.trade t) cs [] shown
            (ground (arith, handle_trade-trades m m1 t one)) rest,
        answers,
      )
  serve ts m (Call.message s ∷ cs) v h =
      let (m1, one, v1) = handle_trades-Tracks n ts (trades_in (parse s)) m positive v in
      let (m', shown, rest, answers) = serve (ts ++ trades_in (parse s)) m1 cs v1 h.1 in
      let read = handle_message-trades_in parse m s h.0 in
      (
        m',
        shown,
        calls_step m m1 m' (Call.message s) cs [] shown (ground (arith, read, one)) rest,
        answers,
      )

  -- From a new manager with a positive interval, any sequence of calls of HandleMessage, HandleTrade and
  -- GetCandlesSnapshot, on none of whose messages the parser ends the program, succeeds. Each snapshot
  -- holds one candle for each instrument traded up to it and no other, made of the trades of its
  -- instrument in their order, whichever calls brought them; a message that the parser refuses brings
  -- none.
  pub calls-Answers :
      (instruments : List Text) (cs : List (Call W))
      → AreParsed parse cs
      → (m : CandleManager W) × (shown : List (List (Candle W))) × (calls parse
            (candle_manager instruments n)
            cs
          ≡ some (m, shown))
        × Answers parse n [] cs shown
  unfolding candle_manager find_candle
  calls-Answers instruments cs h =
      serve [] (candle_manager instruments n) cs
        (record { interval = refl; keyed = tt; made = λ k. refl }) h

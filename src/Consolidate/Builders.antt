-- ===== src/Consolidate/Builders.antt =====
-- consolidate_candle_manager.cpp: each instrument has its own builder, which sees its trades only.
use mathlib.Core.List.{foldl, append-nil, append_assoc}
use consolidated_book.Common.{
  ◌≡◌, refl, sym, ap, ◌∙◌, List, [], ◌∷◌, ◌++◌, Option, none, some, Bool, true, false,
  if◌then◌else◌, Text, text_eq, text_eq_iff, lookup, lookup-assign, arith,
}
use consolidated_book.Common.Int.{ℤ}
use consolidated_book.Types.Market.{Trade, Candle}
use consolidated_book.Consolidate.{
  CandleBuilder, ConsolidateCandleManager, emit, get_or_create_builder, process_trade, run,
}

-- The trades that Run pops before it reads that `running` is off.
abbrev pub popped_trades : {W : Type 0} → List (Bool × Option (Trade W)) → List (Trade W)
popped_trades [] = []
popped_trades ((false, popped) ∷ rest) = []
popped_trades ((true, none) ∷ rest) = popped_trades rest
popped_trades ((true, some t) ∷ rest) = t ∷ popped_trades rest

abbrev pub trades_of : {W : Type 0} → Text → List (Trade W) → List (Trade W)
trades_of k [] = []
trades_of k (t ∷ ts) =
    let rest = trades_of k ts in if text_eq t.instrument k then t ∷ rest else rest

abbrev pub to_list : {A : Type 0} → Option A → List A
to_list none = []
to_list (some a) = a ∷ []

abbrev pub or_new : {B : Type 0} → B → Option B → B
or_new new none = new
or_new new (some b) = b

module _ {W B : Type 0} ⦃o : CandleBuilder W B⦄ where
  -- What one trade does to the builder of its own instrument.
  abbrev pub advance : Text → ℤ → Option B → Trade W → Option B
  advance k interval_ms none t = some (o.add_trade (o.make k interval_ms) t).0
  advance k interval_ms (some b) t = some (o.add_trade b t).0

  pub emit-rest :
      (m : ConsolidateCandleManager W B) (c : Option (Candle W))
      → ((emit m c).builders ≡ m.builders)
        × ((emit m c).interval_ms ≡ m.interval_ms)
        × ((emit m c).running ≡ m.running)
  unfolding emit
  emit-rest m none = (refl, refl, refl)
  emit-rest m (some c) = ground arith

  process_trade-lookup :
      (m : ConsolidateCandleManager W B) (t : Trade W) (k : Text)
      → lookup k (process_trade m t).builders ≡ (
          if text_eq t.instrument k
          then advance k m.interval_ms (lookup k m.builders) t
          else lookup k m.builders)
  unfolding process_trade get_or_create_builder
  process_trade-lookup m t k =
      let made = o.add_trade (get_or_create_builder m t.instrument) t in
      ap (lookup k) (emit-rest _ made.1).0
      ∙ lookup-assign t.instrument k made.0 m.builders
      ∙ ground (arith, text_eq_iff t.instrument k)

  process_trade-interval :
      (m : ConsolidateCandleManager W B) (t : Trade W)
      → (process_trade m t).interval_ms ≡ m.interval_ms
  unfolding process_trade
  process_trade-interval m t = (emit-rest _ _).1

  -- After Run each instrument has the builder that its own trades alone give, in the order popped,
  -- from the one that it had or, without one, from a new one.
  pub run-lookup :
      (m : ConsolidateCandleManager W B) (reads : List (Bool × Option (Trade W))) (k : Text)
      → lookup k (run m reads).builders
        ≡ foldl (advance k m.interval_ms) (lookup k m.builders) (trades_of k (popped_trades reads))
  unfolding run
  run-lookup m [] k = refl
  run-lookup m ((false, popped) ∷ rest) k = refl
  run-lookup m ((true, none) ∷ rest) k = run-lookup m rest k
  run-lookup m ((true, some t) ∷ rest) k =
      run-lookup (process_trade m t) rest k
      ∙ ground (arith, process_trade-lookup m t k, process_trade-interval m t)

  pub emit-calls :
      (m : ConsolidateCandleManager W B) (c : Option (Candle W))
      → m.has_callback ≡ true
      → ((emit m c).calls ≡ m.calls ++ to_list c) × ((emit m c).has_callback ≡ true)
  unfolding emit
  emit-calls m none on = (sym (append-nil m.calls), on)
  emit-calls m (some c) on = ground arith

  -- The candles that the builders complete over a stream of trades, where `f` holds the builder of each
  -- instrument.
  pub completions : ℤ → (Text → Option B) → List (Trade W) → List (Candle W)
  completions n f [] = []
  completions n f (t ∷ ts) =
      let made = o.add_trade (or_new (o.make t.instrument n) (f t.instrument)) t in
      to_list made.1 ++ completions n (λ k. if text_eq t.instrument k then some made.0 else f k) ts

  get_or_create_builder_eq :
      (m : ConsolidateCandleManager W B) (k : Text)
      → get_or_create_builder m k ≡ or_new (o.make k m.interval_ms) (lookup k m.builders)
  unfolding get_or_create_builder
  get_or_create_builder_eq m k = ground arith

  process_trade-calls :
      (m : ConsolidateCandleManager W B) (t : Trade W)
      → m.has_callback ≡ true
      → ((process_trade m t).calls
          ≡ m.calls ++ to_list (o.add_trade (get_or_create_builder m t.instrument) t).1)
        × ((process_trade m t).has_callback ≡ true)
  unfolding process_trade
  process_trade-calls m t on = emit-calls _ _ on

  after :
      (m : ConsolidateCandleManager W B) (t : Trade W) (k : Text) (f : Text → Option B) {start : B}
      → get_or_create_builder m t.instrument ≡ start
      → ((j : Text) → lookup j m.builders ≡ f j)
      → lookup k (process_trade m t).builders
        ≡ (if text_eq t.instrument k then some (o.add_trade start t).0 else f k)
  unfolding process_trade
  after m t k f used same =
      ap (lookup k) (emit-rest _ _).0
      ∙ lookup-assign t.instrument k _ m.builders
      ∙ ground (arith, used, same k)

  run-completions :
      (m : ConsolidateCandleManager W B) (reads : List (Bool × Option (Trade W)))
      (f : Text → Option B)
      → m.has_callback ≡ true
      → ((k : Text) → lookup k m.builders ≡ f k)
      → (run m reads).calls ≡ m.calls ++ completions m.interval_ms f (popped_trades reads)
  unfolding run completions
  run-completions m [] f on same = sym (append-nil m.calls)
  run-completions m ((false, popped) ∷ rest) f on same = sym (append-nil m.calls)
  run-completions m ((true, none) ∷ rest) f on same = run-completions m rest f on same
  run-completions m ((true, some t) ∷ rest) f on same =
      let start = or_new (o.make t.instrument m.interval_ms) (f t.instrument) in
      let used : get_or_create_builder m t.instrument ≡ start =
        get_or_create_builder_eq m t.instrument
        ∙ ap (or_new (o.make t.instrument m.interval_ms)) (same t.instrument) in
      let one = process_trade-calls m t on in
      let made = o.add_trade start t in
      let g : Text → Option B = λ k. if text_eq t.instrument k then some made.0 else f k in
      run-completions (process_trade m t) rest g one.1 (λ k. after m t k f used same)
      ∙ ap (λ cs. cs ++ completions (process_trade m t).interval_ms g (popped_trades rest))
          (one.0 ∙ ap (λ b. m.calls ++ to_list (o.add_trade b t).1) used)
      ∙ ap (λ n. m.calls ++ to_list made.1 ++ completions n g (popped_trades rest))
          (process_trade-interval m t)
      ∙ append_assoc m.calls (to_list made.1) (completions m.interval_ms g (popped_trades rest))

  -- With a callback, Run calls it with the candles that the builders complete, in the order of the
  -- trades that complete them, and with nothing else.
  pub run-calls :
      (m : ConsolidateCandleManager W B) (reads : List (Bool × Option (Trade W)))
      → m.has_callback ≡ true
      → (run m reads).calls
        ≡ m.calls ++ completions m.interval_ms (λ k. lookup k m.builders) (popped_trades reads)
  run-calls m reads on = run-completions m reads (λ k. lookup k m.builders) on (λ k. refl)

-- ===== src/Feed/Trades/Pushes.antt =====
-- What the handlers leave in the pipe, whatever the pipe does when it is full.
use mathlib.Core.List.{Sublistᴰ}
use mathlib.Core.List.{append-nil, append_assoc}
use consolidated_book.Common.{
  ℕ, suc, ◌+◌, ◌≡◌, ◌≤◌, refl, sym, ap, ◌∙◌, inl, inr, ◌⊎◌, List, [], ◌∷◌, ◌++◌, some, true, false,
  if◌then◌else◌, Text, length, arith, Bool-cases, subst,
}
use consolidated_book.Feed.Trades.{
  ProviderTrade, Unstamped, Platform, TradeFeed, clock, push_trade, receive,
}
use consolidated_book.Feed.Providers.{ProviderConfig, on_messages, Venue, provider}
use consolidated_book.Feed.Trades.Contents.{receives, all_trades, on_messages-trades}

-- What the providers rely on: a push that returns true puts the trade behind those that the pipe holds,
-- and one that returns false leaves them as they are. `held` is what the consumer can still pop.
pub record PipeLaws {V W M : Type 0} (e : Platform V W M) (held : M → List (ProviderTrade W))
    : Type 0 where
  pub push-held :
      (m : M) (t : ProviderTrade W)
      → ((e.push m t).1 ≡ true) × (held (e.push m t).0 ≡ held m ++ t ∷ [])
        ⊎ ((e.push m t).1 ≡ false) × (held (e.push m t).0 ≡ held m)

module _ {V W M : Type 0} (e : Platform V W M) where
  -- The trades as they are pushed: stamped with the readings of the clock from the n-th on.
  abbrev pub stamped : ℕ → List (Unstamped W) → List (ProviderTrade W)
  stamped n [] = []
  stamped n (t ∷ ts) = t (clock e n) ∷ stamped (suc n) ts

  length-stamped : (n : ℕ) (ts : List (Unstamped W)) → length (stamped n ts) ≡ length ts
  length-stamped n [] = refl
  length-stamped n (t ∷ ts) = ap suc (length-stamped (suc n) ts)

Sublistᴰ-length : {A : Type 0} {xs ys : List A} → Sublistᴰ xs ys → length xs ≤ length ys
Sublistᴰ-length Sublistᴰ.slnil = omega arith
Sublistᴰ-length (Sublistᴰ.cons s) = omega (arith, Sublistᴰ-length s)
Sublistᴰ-length (Sublistᴰ.cons-cons h s) = omega (arith, Sublistᴰ-length s)

-- A sublist that is as long as the list is the list.
Sublistᴰ-whole : {A : Type 0} {xs ys : List A} → Sublistᴰ xs ys → length xs ≡ length ys → xs ≡ ys
Sublistᴰ-whole Sublistᴰ.slnil h = refl
Sublistᴰ-whole (Sublistᴰ.cons s) h = absurd (omega (arith, Sublistᴰ-length s, h))
Sublistᴰ-whole (Sublistᴰ.cons-cons {b} e s) h =
    rw e (ap (λ r. b ∷ r) (Sublistᴰ-whole s (omega (arith, h))))

-- Trades `kept`, in their order, from a feed that ends with the pipe `m'`: the others are warned of.
pub record Kept {V W M : Type 0} (e : Platform V W M) (held : M → List (ProviderTrade W)) (m : M)
    (f f' : TradeFeed M) (ts : List (Unstamped W)) : Type 0 where
  pub pipe : M
  pub kept : List (ProviderTrade W)
  pub leads : f'.pipe_manager ≡ some pipe
  pub appended : held pipe ≡ held m ++ kept
  pub ordered : Sublistᴰ kept (stamped e f.readings ts)
  pub counted : length kept + f'.warnings ≡ f.warnings + length ts

module _ {V W M : Type 0} {e : Platform V W M} {held : M → List (ProviderTrade W)}
    (laws : PipeLaws e held) where
  receive-pushed :
      (f : TradeFeed M) (m : M) (t : Unstamped W)
      → f.pipe_manager ≡ some m
      → let (m', pushed) = e.push m (t (clock e f.readings)) in
        ((receive e f t).pipe_manager ≡ some m')
        × ((receive e f t).readings ≡ suc f.readings)
        × ((receive e f t).warnings ≡ (if pushed then f.warnings else suc f.warnings))
  unfolding receive push_trade
  receive-pushed f m t h = elim (Bool-cases (e.push m (t (clock e f.readings))).1) [
    | inl p ↦ ground (arith, h, p)
    | inr p ↦ ground (arith, h, p)
  ]

  receives-Kept :
      (f : TradeFeed M) (m : M) (ts : List (Unstamped W))
      → f.pipe_manager ≡ some m
      → Kept e held m f (receives e f ts) ts
  unfolding receive push_trade
  receives-Kept f m [] h = record {
    pipe = m;
    kept = [];
    leads = h;
    appended = sym (append-nil (held m));
    ordered = Sublistᴰ.slnil;
    counted = omega arith;
  }
  receives-Kept f m (t ∷ ts) h =
      let (leads, reads, warns) = receive-pushed f m t h in
      let m' = (e.push m (t (clock e f.readings))).0 in
      let k = receives-Kept (receive e f t) m' ts leads in
      let later = subst (λ n. Sublistᴰ k.kept (stamped e n ts)) reads k.ordered in
      elim (laws.push-held m (t (clock e f.readings))) [
        | inl (p, q) ↦ record {
          pipe = k.pipe;
          kept = t (clock e f.readings) ∷ k.kept;
          leads = k.leads;
          appended =
              k.appended
              ∙ ap (λ r. r ++ k.kept) q
              ∙ append_assoc (held m) (t (clock e f.readings) ∷ []) k.kept;
          ordered = Sublistᴰ.cons-cons refl later;
          counted = ground (arith, k.counted, warns, p);
        }
        | inr (p, q) ↦ record {
          pipe = k.pipe;
          kept = k.kept;
          leads = k.leads;
          appended = k.appended ∙ ap (λ r. r ++ k.kept) q;
          ordered = Sublistᴰ.cons later;
          counted = ground (arith, k.counted, warns, p);
        }
      ]

  -- With a pipe that keeps PipeLaws, each trade that is read from a connection's messages is put behind
  -- the trades that the pipe holds, in the order of its reading and stamped with the next reading of the
  -- clock, or it is warned of: the trades kept and the new warnings are as many as the trades read.
  pub messages-Kept :
      (config : ProviderConfig M) (x : Venue) (f : TradeFeed M) (m : M) (messages : List Text)
      → f.pipe_manager ≡ some m
      → Kept e held m f (on_messages (provider e config x) f messages) (all_trades e x messages)
  messages-Kept config x f m messages h =
      subst (λ f'. Kept e held m f f' (all_trades e x messages))
        (sym (on_messages-trades e config x f messages))
        (receives-Kept f m (all_trades e x messages) h)

  -- If no warning has been written, the pipe ends with exactly all of the messages' trades behind those
  -- that it held, in their order, stamped with the readings of the clock.
  pub messages-all :
      (config : ProviderConfig M) (x : Venue) (f : TradeFeed M) (m : M) (messages : List Text)
      → f.pipe_manager ≡ some m
      → (on_messages (provider e config x) f messages).warnings ≡ f.warnings
      → (m' : M) × ((on_messages (provider e config x) f messages).pipe_manager ≡ some m')
        × (held m' ≡ held m ++ stamped e f.readings (all_trades e x messages))
  messages-all config x f m messages h quiet =
      let k = messages-Kept config x f m messages h in
      (
        k.pipe,
        k.leads,
        k.appended
            ∙ ap (λ r. held m ++ r)
                (Sublistᴰ-whole k.ordered (
                  omega (
                    arith,
                    k.counted,
                    quiet,
                    length-stamped e f.readings (all_trades e x messages),
                  ))),
      )

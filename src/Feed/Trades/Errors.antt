-- ===== src/Feed/Trades/Errors.antt =====
-- A price, quantity or time that cannot be read.
use consolidated_book.Common.{
  ◌≡◌, refl, inl, inr, ◌⊎◌, List, [], ◌∷◌, ◌++◌, Option, none, some, Text, codes, arith,
}
use consolidated_book.Standard.{Result, ◌>>=◌, ok, err, Exception, Result-cases, stoll}
use consolidated_book.Feed.{remove_hyphens}
use consolidated_book.Feed.Trades.{
  Unstamped, Platform, TradeFeed, text, converted, numbered, receive, receive_items, bybit_fill,
  okx_fill,
}

abbrev pub Throws : {A : Type 0} → Result A → Type 0
Throws r = (x : Exception) × (r ≡ err x)

first-Throws : {A B : Type 0} (r : Result A) (f : A → Result B) → Throws r → Throws (r >>= f)
first-Throws (ok a) f (x, h) = cc
first-Throws (err y) f (x, h) = (y, refl)

then-Throws :
    {A B : Type 0} (r : Result A) (f : A → Result B) → ((a : A) → Throws (f a)) → Throws (r >>= f)
then-Throws (ok a) f h = h a
then-Throws (err y) f h = (y, refl)

numbered-Throws :
    {A B : Type 0} (o : Option A) (read : A → Result B) (s : A)
    → o ≡ some s
    → Throws (read s)
    → Throws (numbered o read)
numbered-Throws none read s h t = cc
numbered-Throws (some a) read s h t =
    let same : a ≡ s = cc in first-Throws (read a) (λ b. ok (some b)) (rw same t)

module _ {V W M : Type 0} (e : Platform V W M) where
  receive_items-cut :
      (fill : V → Result (Unstamped W)) (f : TradeFeed M) (items : List V) (bad : V) (rest : List V)
      → ((x : Exception) × (fill bad ≡ err x))
      → receive_items e fill f (items ++ bad ∷ rest) ≡ receive_items e fill f items
  unfolding receive_items
  receive_items-cut fill f [] bad rest (x, h) = ground (arith, h)
  receive_items-cut fill f (item ∷ items) bad rest h = elim (Result-cases (fill item)) [
    | inl (t, k) ↦ ground (arith, k, receive_items-cut fill (receive e f t) items bad rest h)
    | inr (x, k) ↦ ground (arith, k)
  ]

  -- The item has a text under the key, which the function refuses.
  abbrev pub Refuses : {A : Type 0} → V → Text → (Text → Result A) → Type 0
  Refuses item key read = (s : Text) × (text e item key ≡ some s) × Throws (read s)

  bybit_fill-Refuses :
      (bad : V)
      → Refuses bad (codes "p") e.stod ⊎ Refuses bad (codes "v") e.stod
      → Throws (bybit_fill e bad)
  unfolding bybit_fill
  bybit_fill-Refuses bad h =
      then-Throws (converted (text e bad (codes "s")) [] (λ s. ok s)) _ (λ instrument.
        then-Throws (converted (text e bad (codes "i")) [] (λ i. ok i)) _ (λ trade_id. elim h [
          | inl (s, k, t) ↦ first-Throws _ _ (numbered-Throws _ e.stod s k t)
          | inr (s, k, t) ↦
              then-Throws (numbered (text e bad (codes "p")) e.stod) _
                (λ price. first-Throws _ _ (numbered-Throws _ e.stod s k t))
        ]))

  okx_fill-Refuses :
      (bad : V)
      → Refuses bad (codes "px") e.stod
        ⊎ (Refuses bad (codes "sz") e.stod ⊎ Refuses bad (codes "ts") stoll)
      → Throws (okx_fill e bad)
  unfolding okx_fill
  okx_fill-Refuses bad h =
      then-Throws (converted (text e bad (codes "instId")) [] (λ s. ok (remove_hyphens s))) _
        (λ instrument.
          then-Throws (converted (text e bad (codes "tradeId")) [] (λ i. ok i)) _ (λ trade_id.
            elim h [
              | inl (s, k, t) ↦ first-Throws _ _ (numbered-Throws _ e.stod s k t)
              | inr (inl (s, k, t)) ↦
                  then-Throws (numbered (text e bad (codes "px")) e.stod) _
                    (λ price. first-Throws _ _ (numbered-Throws _ e.stod s k t))
              | inr (inr (s, k, t)) ↦
                  then-Throws (numbered (text e bad (codes "px")) e.stod) _ (λ price.
                    then-Throws (numbered (text e bad (codes "sz")) e.stod) _
                      (λ qty. first-Throws _ _ (numbered-Throws _ stoll s k t)))
            ]))

  -- Of the items of a message of Bybit, those behind one whose price or quantity std::stod refuses are
  -- lost with it, and those in front of it are not.
  pub bybit_fill-cut :
      (f : TradeFeed M) (items : List V) (bad : V) (rest : List V)
      → Refuses bad (codes "p") e.stod ⊎ Refuses bad (codes "v") e.stod
      → receive_items e (bybit_fill e) f (items ++ bad ∷ rest)
        ≡ receive_items e (bybit_fill e) f items
  bybit_fill-cut f items bad rest h =
      receive_items-cut (bybit_fill e) f items bad rest (bybit_fill-Refuses bad h)

  -- Of the items of a message of OKX, those behind one whose price or quantity std::stod refuses, or whose
  -- time std::stoll refuses, are lost with it, and those in front of it are not.
  pub okx_fill-cut :
      (f : TradeFeed M) (items : List V) (bad : V) (rest : List V)
      → Refuses bad (codes "px") e.stod
        ⊎ (Refuses bad (codes "sz") e.stod ⊎ Refuses bad (codes "ts") stoll)
      → receive_items e (okx_fill e) f (items ++ bad ∷ rest) ≡ receive_items e (okx_fill e) f items
  okx_fill-cut f items bad rest h =
      receive_items-cut (okx_fill e) f items bad rest (okx_fill-Refuses bad h)

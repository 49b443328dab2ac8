-- ===== src/Feed/Subscription.antt =====
-- GetSubscriptionMessage of binance_provider.cpp, bybit_provider.cpp and okx_provider.cpp.
use mathlib.Core.List.{append-nil, append_assoc}
use consolidated_book.Common.{
  ℕ, suc, ◌+◌, ◌≡◌, refl, sym, ap, ◌∙◌, List, [], ◌∷◌, ◌++◌, ◌==◌, Text, codes, map, arith, false,
  All, take, drop, find, Option-cases, inl, inr,
}
use consolidated_book.Common.Int.{pos}
use consolidated_book.Config.Items.{join}
use consolidated_book.Json.Values.{Value, Items, Members, list_items}
use consolidated_book.Json.Print.{
  print, print_items, print_members, print_items-join, IsPlain, escape-IsPlain, append-IsPlain,
  take-IsPlain, drop-IsPlain,
}
use consolidated_book.Standard.{to_string, write_digits}
use consolidated_book.Feed.{
  to_lower, okx_inst_id, bybit_topic, entries, binance_entry, bybit_entry, okx_entry,
  binance_subscription, bybit_subscription, okx_subscription,
}

later :
    (entry : Text → Text) (i : ℕ) (x : Text) (xs : List Text)
    → entries entry (suc i) (x ∷ xs) ≡ b',' ∷ (entry x ++ entries entry (suc (suc i)) xs)
unfolding entries
later entry i x xs =
    let first : (suc i == 0) ≡ false = ground arith in
    let next : suc i + 1 ≡ suc (suc i) = omega arith in
    rw first (ap (λ n. b',' ∷ (entry x ++ entries entry n xs)) next)

later-join :
    (entry : Text → Text) (i : ℕ) (x : Text) (xs : List Text)
    → entries entry (suc i) (x ∷ xs) ≡ b',' ∷ join b',' (map entry (x ∷ xs))
unfolding entries
later-join entry i x [] = later entry i x [] ∙ ap (λ r. b',' ∷ r) (append-nil (entry x))
later-join entry i x (y ∷ xs) =
    later entry i x (y ∷ xs) ∙ ap (λ r. b',' ∷ (entry x ++ r)) (later-join entry (suc i) y xs)

entries-join :
    (entry : Text → Text) (xs : List Text) → entries entry 0 xs ≡ join b',' (map entry xs)
unfolding entries
entries-join entry [] = refl
entries-join entry (x ∷ []) = append-nil (entry x)
entries-join entry (x ∷ y ∷ xs) = ap (λ r. entry x ++ r) (later-join entry 0 y xs)

-- The documents that the comments in the providers show.
abbrev stream : Text → Value
stream x = Value.string (map to_lower x ++ codes "@trade")

abbrev channel : Text → Value
channel x = Value.object (
    Members.member (codes "channel") (Value.string (codes "trades"))
      (Members.member (codes "instId") (Value.string (okx_inst_id x)) Members.no_members))

abbrev pub binance_document : List Text → Value
binance_document xs = Value.object (
    Members.member (codes "method") (Value.string (codes "SUBSCRIBE")) (
      Members.member (codes "params") (Value.array (list_items (map stream xs)))
        (Members.member (codes "id") (Value.number (pos 1)) Members.no_members)))

abbrev pub subscribe : Items → Value
subscribe args = Value.object (
    Members.member (codes "op") (Value.string (codes "subscribe"))
      (Members.member (codes "args") (Value.array args) Members.no_members))

abbrev pub bybit_document : List Text → Value
bybit_document xs = subscribe (list_items (map (λ x. Value.string (bybit_topic x)) xs))

abbrev pub okx_document : List Text → Value
okx_document xs = subscribe (list_items (map channel xs))

map-same :
    (entry : Text → Text) (f : Text → Value) (xs : List Text)
    → All (λ x. entry x ≡ print (f x)) xs
    → map entry xs ≡ map (λ x. print (f x)) xs
map-same entry f [] h = refl
map-same entry f (x ∷ xs) h = rw h.0 (ap (λ r. print (f x) ∷ r) (map-same entry f xs h.1))

entries-print :
    (entry : Text → Text) (f : Text → Value) (xs : List Text)
    → All (λ x. entry x ≡ print (f x)) xs
    → entries entry 0 xs ≡ print_items (list_items (map f xs))
entries-print entry f xs h =
    entries-join entry xs ∙ ap (join b',') (map-same entry f xs h) ∙ sym (print_items-join f xs)

-- The names of instruments as the messages have them are as plain as the instruments.
to_lower-IsPlain : (x : Text) → IsPlain x → IsPlain (map to_lower x)
unfolding to_lower
to_lower-IsPlain [] h = tt
to_lower-IsPlain (c ∷ x) h = (ground (arith, h.0), to_lower-IsPlain x h.1)

okx_inst_id-IsPlain : (x : Text) → IsPlain x → IsPlain (okx_inst_id x)
unfolding okx_inst_id
okx_inst_id-IsPlain x h = elim (Option-cases (find x (codes "USDT"))) [
  | inl missing ↦ rw (okx_inst_id, missing) h
  | inr (i, found) ↦
      rw (okx_inst_id, found)
        (append-IsPlain (take i x ++ codes "-") (drop i x)
          (append-IsPlain (take i x) (codes "-") (take-IsPlain i x h) (ground arith))
          (drop-IsPlain i x h))
]

quoted_plain : (s : Text) → IsPlain s → codes "\"" ++ s ++ codes "\"" ≡ print (Value.string s)
unfolding print
quoted_plain s h = ap (λ t. codes "\"" ++ t ++ codes "\"") (sym (escape-IsPlain s h))

entry-print :
    (entry : Text → Text) (f : Text → Value) (xs : List Text)
    → ((x : Text) → IsPlain x → entry x ≡ print (f x))
    → All IsPlain xs
    → All (λ x. entry x ≡ print (f x)) xs
entry-print entry f [] one h = tt
entry-print entry f (x ∷ xs) one h = (one x h.0, entry-print entry f xs one h.1)

binance_entry-print : (x : Text) → IsPlain x → binance_entry x ≡ print (stream x)
unfolding binance_entry
binance_entry-print x h =
    quoted_plain (map to_lower x ++ codes "@trade")
      (append-IsPlain (map to_lower x) (codes "@trade") (to_lower-IsPlain x h) (ground arith))

bybit_entry-print : (x : Text) → IsPlain x → bybit_entry x ≡ print (Value.string (bybit_topic x))
unfolding bybit_entry bybit_topic
bybit_entry-print x h =
    quoted_plain (codes "publicTrade." ++ x)
      (append-IsPlain (codes "publicTrade.") x (ground arith) h)

okx_entry-print : (x : Text) → IsPlain x → okx_entry x ≡ print (channel x)
unfolding okx_entry print print_items print_members
okx_entry-print x h =
    ap (λ t. codes "{\"channel\":\"trades\",\"instId\":\"" ++ t)
      (sym (append_assoc (okx_inst_id x) (codes "\"") (codes "}")))
    ∙ ap (λ t. codes "{\"channel\":\"trades\",\"instId\":\"" ++ ((t ++ codes "\"") ++ codes "}"))
        (sym (escape-IsPlain (okx_inst_id x) (okx_inst_id-IsPlain x h)))

-- A message with the entries between two texts, the second one cut in two.
framed :
    (start middle end : Text) {r s : Text}
    → r ≡ s
    → start ++ (r ++ (middle ++ end)) ≡ start ++ ((s ++ middle) ++ end)
framed start middle end {s} e =
    ap (λ t. start ++ (t ++ (middle ++ end))) e
    ∙ ap (λ t. start ++ t) (sym (append_assoc s middle end))

subscribe-print :
    (entry : Text → Text) (f : Text → Value) (xs : List Text)
    → All (λ x. entry x ≡ print (f x)) xs
    → codes "{\"op\":\"subscribe\",\"args\":[" ++ entries entry 0 xs ++ codes "]}"
      ≡ print (subscribe (list_items (map f xs)))
unfolding print print_items print_members
subscribe-print entry f xs h =
    framed (codes "{\"op\":\"subscribe\",\"args\":[") (codes "]") (codes "}")
      (entries-print entry f xs h)

-- Each subscription message is the text of the JSON document that the comment in its function shows, for
-- any list of instruments without quotes, backslashes and control characters: one entry each, in the
-- order of the configuration.
pub subscription-print :
    (xs : List Text)
    → All IsPlain xs
    → (binance_subscription xs ≡ print (binance_document xs))
      × (bybit_subscription xs ≡ print (bybit_document xs))
      × (okx_subscription xs ≡ print (okx_document xs))
unfolding binance_subscription bybit_subscription okx_subscription print print_items print_members
    to_string write_digits
subscription-print xs plain = (
  framed (codes "{\"method\":\"SUBSCRIBE\",\"params\":[") (codes "]") (codes ",\"id\":1}") (
        entries-print binance_entry stream xs
          (entry-print binance_entry stream xs binance_entry-print plain))
      ∙ ap (λ t. codes "{\"method\":\"SUBSCRIBE\",\"params\":[" ++ t)
          (sym (
            append_assoc (print_items (list_items (map stream xs)) ++ codes "]") (codes ",\"id\":1")
              (codes "}"))),
  subscribe-print bybit_entry (λ x. Value.string (bybit_topic x)) xs
      (entry-print bybit_entry (λ x. Value.string (bybit_topic x)) xs bybit_entry-print plain),
  subscribe-print okx_entry channel xs (entry-print okx_entry channel xs okx_entry-print plain),
)

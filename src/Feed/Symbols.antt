-- ===== src/Feed/Symbols.antt =====
-- The names of instruments, to each exchange and back.
use mathlib.Core.List.{append-nil}
use consolidated_book.Common.{
  ℕ, suc, zero, ◌+◌, ◌<◌, ◌≡◌, ◌≢◌, refl, ap, ◌∙◌, sym, ◌⊎◌, inl, inr, [], ◌∷◌, ◌++◌, none, some,
  true, Text, codes, find, starts_with, take, drop, take-append-drop, length, map, All, arith,
  Option-cases,
}
use consolidated_book.Feed.{
  to_lower, to_upper, extract_symbol, okx_inst_id, remove_hyphens, bybit_topic,
}

starts_with_lem : (s p : Text) → starts_with s p ≡ true → s ≡ p ++ drop (length p) s
starts_with_lem s [] h = refl
starts_with_lem [] (c ∷ p) h = cc
starts_with_lem (a ∷ s) (c ∷ p) h =
    let (same, rest) : (a ≡ c) × (starts_with s p ≡ true) = ground arith in
    rw same (ap (λ r. c ∷ r) (starts_with_lem s p rest))

-- What `find` finds stands where it says.
find_sound :
    (s p : Text) (i : ℕ) → find s p ≡ some i → s ≡ take i s ++ (p ++ drop (length p) (drop i s))
find_sound [] p zero h = starts_with_lem [] p (ground arith)
find_sound [] p (suc i) h = absurd (ground arith)
find_sound (c ∷ s) p zero h =
    starts_with_lem (c ∷ s) p
      (elim (Option-cases (find s p)) [ inl e ↦ ground arith | inr (j, e) ↦ ground arith ])
find_sound (c ∷ s) p (suc i) h =
    ap (λ r. c ∷ r)
      (find_sound s p i
        (elim (Option-cases (find s p)) [ inl e ↦ ground arith | inr (j, e) ↦ ground arith ]))

drop_nil : (n : ℕ) → drop {A = ℕ} n [] ≡ []
drop_nil zero = refl
drop_nil (suc n) = refl

drop-drop : (i n : ℕ) (s : Text) → drop (i + n) s ≡ drop n (drop i s)
drop-drop zero n s = ap (λ k. drop k s) (omega arith)
drop-drop (suc i) n [] =
    ap (λ k. drop k []) {x = suc i + n} {y = suc (i + n)} (omega arith) ∙ sym (drop_nil n)
drop-drop (suc i) n (c ∷ s) =
    ap (λ k. drop k (c ∷ s)) {x = suc i + n} {y = suc (i + n)} (omega arith) ∙ drop-drop i n s

symbol-found :
    (topic : Text) (i : ℕ)
    → find topic (codes "publicTrade.") ≡ some i
    → topic ≡ take i topic ++ bybit_topic (drop (i + 12) topic)
unfolding bybit_topic
symbol-found topic i e =
    find_sound topic (codes "publicTrade.") i e
    ∙ ap (λ r. take i topic ++ (codes "publicTrade." ++ r)) (sym (drop-drop i 12 topic))

find-extract :
    (topic : Text) (i : ℕ)
    → find topic (codes "publicTrade.") ≡ some i
    → extract_symbol topic ≡ drop (i + 12) topic
unfolding extract_symbol
find-extract topic i e = ground (arith, e)

find-nothing : (topic : Text) → find topic (codes "publicTrade.") ≡ none → extract_symbol topic ≡ []
unfolding extract_symbol
find-nothing topic e = ground (arith, e)

remove_hyphens-append :
    (s t : Text) → remove_hyphens (s ++ t) ≡ remove_hyphens s ++ remove_hyphens t
unfolding remove_hyphens
remove_hyphens-append [] t = refl
remove_hyphens-append (c ∷ s) t = ground (arith, remove_hyphens-append s t)

remove_hyphens-none : (s : Text) → All (λ c. c ≢ b'-') s → remove_hyphens s ≡ s
unfolding remove_hyphens
remove_hyphens-none [] h = refl
remove_hyphens-none (c ∷ s) h = ground (arith, remove_hyphens-none s h.1)

cut : (i : ℕ) (s : Text) → remove_hyphens (take i s ++ codes "-" ++ drop i s) ≡ remove_hyphens s
unfolding remove_hyphens
cut i s =
    remove_hyphens-append (take i s ++ codes "-") (drop i s)
    ∙ ap (λ r. r ++ remove_hyphens (drop i s)) (remove_hyphens-append (take i s) (codes "-"))
    ∙ ap (λ r. r ++ remove_hyphens (drop i s)) (append-nil (remove_hyphens (take i s)))
    ∙ sym (remove_hyphens-append (take i s) (drop i s))
    ∙ ap remove_hyphens (take-append-drop i s)

-- OkxProvider reads an instrument back from the id that it subscribes to, if its name has no hyphen.
pub remove_hyphens-okx_inst_id :
    (x : Text) → All (λ c. c ≢ b'-') x → remove_hyphens (okx_inst_id x) ≡ x
unfolding okx_inst_id
remove_hyphens-okx_inst_id x h = elim (Option-cases (find x (codes "USDT"))) [
  | inl e ↦ ground (arith, remove_hyphens-none x h)
  | inr (i, e) ↦ ground (arith, cut i x, remove_hyphens-none x h)
]

-- BinanceProvider reads an instrument back from the stream that it subscribes to, if its name has no
-- lower-case letter.
pub to_upper-to_lower :
    (x : Text) → All (λ c. (c < 97) ⊎ (122 < c)) x → map to_upper (map to_lower x) ≡ x
unfolding to_upper to_lower
to_upper-to_lower [] h = refl
to_upper-to_lower (c ∷ x) h = ground (arith, to_upper-to_lower x h.1)

-- The symbol that BybitSpotParser extracts from a topic that BybitProvider subscribes to is the
-- instrument. Of any other text it is empty, or what follows a "publicTrade." in it.
pub extract_symbol-bybit_topic :
    (x topic : Text)
    → (extract_symbol (bybit_topic x) ≡ x)
      × ((extract_symbol topic ≡ [])
          ⊎ ((before : Text) × (topic ≡ before ++ bybit_topic (extract_symbol topic))))
unfolding extract_symbol bybit_topic
extract_symbol-bybit_topic x topic = (
  refl,
  elim (Option-cases (find topic (codes "publicTrade."))) [
    | inl e ↦ inl (find-nothing topic e)
    | inr (i, e) ↦ inr (take i topic, rw (find-extract topic i e) (symbol-found topic i e))
  ],
)

-- ===== src/Config/Arguments.antt =====
-- config.cpp: ParseFromArgs and Validate.
use consolidated_book.Common.{
  ℕ, subst, inl, inr, ◌≡◌, ◌≢◌, refl, List, [], ◌∷◌, ◌++◌, true, Text, codes, length, leb,
  starts_with, find, drop, Option-cases, All, arith,
}
use consolidated_book.Common.Int.{pos, ltb_ℤ}
use consolidated_book.Standard.{out_of_range, Result, ok, err, ◌>>=◌, stoi}
use consolidated_book.Config.{
  ServerConfig, parse_arg, parse_args, begins, substr_or_throw, or_default, server_config,
  set_defaults, parse_from_args, validate,
}
use consolidated_book.Config.Items.{join, IsItem, getlines-join}

leb_append : (p s : Text) → leb (length p) (length (p ++ s)) ≡ true
leb_append [] s = ground arith
leb_append (x ∷ p) s = ground (arith, leb_append p s)

drop_append : (p s : Text) → drop (length p) (p ++ s) ≡ s
drop_append [] s = refl
drop_append (x ∷ p) s = drop_append p s

begins-starts_with : (s p : Text) → begins s p ≡ starts_with s p
unfolding begins
begins-starts_with [] p = ground arith
begins-starts_with (c ∷ s) p = elim (Option-cases (find s p)) [
  | inl e ↦ ground arith
  | inr (i, e) ↦ ground arith
]

substr_or_throw_append : (p s : Text) → substr_or_throw (p ++ s) (length p) ≡ ok s
unfolding substr_or_throw
substr_or_throw_append p s = ground (arith, leb_append p s, drop_append p s)

substr_or_throw_past : substr_or_throw (codes "--interval_ms=") 15 ≡ err out_of_range
unfolding substr_or_throw
substr_or_throw_past = refl

or_default_ne : (xs : List Text) (x : Text) (ys : List Text) → or_default xs (x ∷ ys) ≢ []
or_default_ne [] x ys h = cc
or_default_ne (y ∷ xs) x ys h = cc

abbrev Judged : ServerConfig → Type 0
Judged c = (c.exchanges ≢ []) × (c.instruments ≢ []) × (validate c ≡ ltb_ℤ (pos 0) c.interval_ms)

set_defaults-validate :
    (c : ServerConfig)
    → ((set_defaults c).exchanges ≢ [])
      × ((set_defaults c).instruments ≢ [])
      × (validate (set_defaults c) ≡ ltb_ℤ (pos 0) c.interval_ms)
unfolding validate set_defaults
set_defaults-validate c =
    (or_default_ne c.exchanges _ _, or_default_ne c.instruments _ _, ground arith)

ok_inj : {A : Type 0} {x y : A} → ok x ≡ ok y → x ≡ y
ok_inj h = cc

defaulted :
    (r : Result ServerConfig) (c : ServerConfig)
    → (r >>= λ c'. ok (set_defaults c')) ≡ ok c
    → Judged c
unfolding set_defaults
defaulted (ok c') c h = subst Judged (ok_inj h) (set_defaults-validate c')
defaulted (err e) c h = cc

-- A configuration that ParseFromArgs returns names an exchange and an instrument, and Validate accepts
-- it exactly if its interval is positive.
pub validate-parse_from_args :
    (argv : List Text) (c : ServerConfig)
    → parse_from_args argv ≡ ok c
    → (c.exchanges ≢ []) × (c.instruments ≢ []) × (validate c ≡ ltb_ℤ (pos 0) c.interval_ms)
unfolding parse_from_args
validate-parse_from_args argv c h = defaulted (parse_args server_config (drop 1 argv)) c h

-- --exchanges= and --instruments=, with items that are not empty and have no comma, append them to
-- those of earlier arguments and change nothing else.
pub parse_arg-items :
    (c : ServerConfig) (xs : List Text)
    → All (IsItem b',') xs
    → (parse_arg c (codes "--exchanges=" ++ join b',' xs)
        ≡ ok (record c { exchanges = c.exchanges ++ xs }))
      × (parse_arg c (codes "--instruments=" ++ join b',' xs)
          ≡ ok (record c { instruments = c.instruments ++ xs }))
unfolding parse_arg
parse_arg-items c xs h = (
  simp (
    begins-starts_with,
    substr_or_throw_append (codes "--exchanges=") (join b',' xs),
    getlines-join b',' xs h,
  ),
  simp (
    begins-starts_with,
    substr_or_throw_append (codes "--instruments=") (join b',' xs),
    getlines-join b',' xs h,
  ),
)

-- The value of --interval_ms= is read from its second character on: without a character it is an
-- out_of_range exception, and otherwise what stoi makes of the rest. --grpc_port= is read whole.
pub parse_arg-numbers :
    (c : ServerConfig)
    → (parse_arg c (codes "--interval_ms=") ≡ err out_of_range)
      × ((d : ℕ) (s : Text)
          → parse_arg c (codes "--interval_ms=" ++ d ∷ s)
            ≡ (stoi s >>= λ n. ok (record c { interval_ms = n })))
      × ((s : Text)
          → parse_arg c (codes "--grpc_port=" ++ s)
            ≡ (stoi s >>= λ n. ok (record c { grpc_port = n })))
unfolding parse_arg
parse_arg-numbers c = (
  simp (begins-starts_with, substr_or_throw_past),
  λ d s. simp (begins-starts_with, substr_or_throw_append (codes "--interval_ms=" ++ d ∷ []) s),
  λ s. simp (begins-starts_with, substr_or_throw_append (codes "--grpc_port=") s),
)

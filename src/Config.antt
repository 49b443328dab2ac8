-- ===== src/Config.antt =====
-- server/config/config.h and config.cpp: the command line. An int is an integer between -2^31 and
-- 2^31 - 1; std::stoi and std::getline are written out as the standard describes them.
pub mod Items
pub mod Arguments
pub mod Tests
use consolidated_book.Common.{
  ℕ, zero, suc, ◌+◌, ◌-◌, ◌*◌, ◌^◌, List, [], ◌∷◌, ◌++◌, Option, none, some, Bool, true, false,
  ◌==◌, ltb, leb, ◌&&◌, ◌||◌, not, if◌then◌else◌, Text, codes, find, substr, drop,
}
use consolidated_book.Common.Int.{ℤ, pos, negsuc, ltb_ℤ}
use consolidated_book.Standard.{Exception, out_of_range, Result, ok, err, ◌>>=◌, stoi}

pub record ServerConfig : Type 0 where
  pub interval_ms : ℤ
  pub exchanges : List Text
  pub instruments : List Text
  pub grpc_port : ℤ

-- The lines that std::getline reads up to `delimiter`; what follows a last delimiter is no line if it
-- is empty.
unfoldable pub getlines : ℕ → Text → Text → List Text
getlines delimiter [] [] = []
getlines delimiter (x ∷ line) [] = (x ∷ line) ∷ []
getlines delimiter line (c ∷ s) =
    let next = getlines delimiter [] s in
    let same = getlines delimiter (line ++ c ∷ []) s in if c == delimiter then line ∷ next else same

unfoldable pub begins : Text → Text → Bool
begins arg prefix = elim (find arg prefix) [ none ↦ false | some i ↦ i == 0 ]

unfoldable pub substr_or_throw : Text → ℕ → Result Text
substr_or_throw s i = elim (substr s i) [ none ↦ err out_of_range | some t ↦ ok t ]

-- The body of the loop over argv.
unfoldable pub parse_arg : ServerConfig → Text → Result ServerConfig
parse_arg c arg =
    if begins arg (codes "--interval_ms=")
    then (substr_or_throw arg 15 >>= λ t. stoi t >>= λ n. ok (record c { interval_ms = n }))
    else if begins arg (codes "--exchanges=")
    then (substr_or_throw arg 12 >>= λ t.
        ok (record c { exchanges = c.exchanges ++ getlines b',' [] t }))
    else if begins arg (codes "--instruments=")
    then (substr_or_throw arg 14 >>= λ t.
        ok (record c { instruments = c.instruments ++ getlines b',' [] t }))
    else if begins arg (codes "--grpc_port=")
    then (substr_or_throw arg 12 >>= λ t. stoi t >>= λ n. ok (record c { grpc_port = n }))
    else ok c

unfoldable pub parse_args : ServerConfig → List Text → Result ServerConfig
parse_args c [] = ok c
parse_args c (arg ∷ args) = parse_arg c arg >>= λ c'. parse_args c' args

unfoldable pub server_config : ServerConfig
server_config = record {
  interval_ms = pos 5;
  exchanges = [];
  instruments = [];
  grpc_port = pos 50051;
}

abbrev pub or_default : List Text → List Text → List Text
or_default [] d = d
or_default (x ∷ xs) d = x ∷ xs

unfoldable pub set_defaults : ServerConfig → ServerConfig
set_defaults c = record c {
  exchanges = or_default c.exchanges (codes "binance" ∷ codes "bybit" ∷ codes "okx" ∷ []);
  instruments = or_default c.instruments (codes "BTCUSDT" ∷ codes "ETHUSDT" ∷ codes "SOLUSDT" ∷ []);
}

unfoldable pub parse_from_args : List Text → Result ServerConfig
unfolding server_config
parse_from_args argv = parse_args server_config (drop 1 argv) >>= λ c. ok (set_defaults c)

abbrev pub empty : List Text → Bool
empty [] = true
empty (x ∷ xs) = false

-- Validate, without the messages.
unfoldable pub validate : ServerConfig → Bool
validate c =
    if not (ltb_ℤ (pos 0) c.interval_ms)
    then false
    else if empty c.exchanges
    then false
    else if empty c.instruments
    then false
    else true

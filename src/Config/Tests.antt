-- ===== src/Config/Tests.antt =====
-- config.cpp: a few command lines.
use consolidated_book.Common.{◌≡◌, ◌≢◌, refl, List, [], ◌∷◌, Text, codes}
use consolidated_book.Common.Int.{pos, ltb_ℤ}
use consolidated_book.Standard.{ok, stoi, skip_space, read_int, read_digits, in_int}
use consolidated_book.Config.{
  ServerConfig, getlines, begins, substr_or_throw, parse_arg, parse_args, server_config,
  set_defaults, parse_from_args, validate,
}
use consolidated_book.Config.Arguments.{validate-parse_from_args}

abbrev names : List Text
names = codes "okx" ∷ codes "bybit" ∷ []

abbrev argv : List Text
argv = codes "server" ∷ codes "--interval_ms=1500" ∷ codes "--exchanges=okx,bybit" ∷ []

-- The 1 of 1500 is lost.
abbrev parsed : ServerConfig
parsed = record {
  interval_ms = pos 500;
  exchanges = names;
  instruments = codes "BTCUSDT" ∷ codes "ETHUSDT" ∷ codes "SOLUSDT" ∷ [];
  grpc_port = pos 50051;
}

parse_from_args-argv : parse_from_args argv ≡ ok parsed
unfolding parse_from_args parse_args parse_arg begins substr_or_throw stoi skip_space read_int
    read_digits in_int getlines set_defaults server_config
parse_from_args-argv = refl

validate-parse_from_args_example :
    (parsed.exchanges ≢ [])
    × (parsed.instruments ≢ [])
    × (validate parsed ≡ ltb_ℤ (pos 0) (pos 500))
validate-parse_from_args_example = validate-parse_from_args argv parsed parse_from_args-argv

-- ===== src/Feed/Live/Race.antt =====
-- base_provider.cpp: Stop between the test of `running` and ioc.restart().
use consolidated_book.Session.{ErrorCode}
use consolidated_book.Feed.Providers.{ExchangeProvider}
use consolidated_book.Feed.Live.{Live, stop_step}

module _ {M : Type 0} (x : ExchangeProvider M) where
  -- A whole call of Stop up to its join, with no step of the worker in between.
  abbrev pub stop_up_to_join : Live M → ErrorCode → Live M
  stop_up_to_join p ec = stop_step (stop_step (stop_step p ec) ec) ec

-- ===== src/Feed/Live/Contents.antt =====
-- base_provider.cpp and the three providers: the trades that a whole provider pushes on a connection.
use consolidated_book.Common.{◌≡◌, ◌∙◌, sym, ap, List, [], ◌∷◌, ◌++◌, Bool, true, some, Text, refl}
use consolidated_book.Session.{ErrorCode}
use consolidated_book.Session.Messages.{received}
use consolidated_book.Feed.Trades.{ProviderTrade, Platform}
use consolidated_book.Feed.Trades.Contents.{all_trades}
use consolidated_book.Feed.Trades.Pushes.{PipeLaws, stamped}
use consolidated_book.Feed.Providers.{ProviderConfig, Venue, provider}
use consolidated_book.Feed.Connection.{session, connect, connect-all}
use consolidated_book.Feed.Connection
use consolidated_book.Feed.Live.{Worker, Live, has_work, run_steps}
use consolidated_book.Feed.Live.Messages.{Reply, events, outcomes, opens, IsFree, run_steps-connect}

-- The four operations before the first read, each with a success.
abbrev pub handshakes : List Reply
handshakes = let ends : Reply = (ErrorCode.success, true, []) in ends ∷ ends ∷ ends ∷ ends ∷ []

events-handshakes :
    (rs : List Reply) → events (handshakes ++ rs) ≡ Connection.handshakes ++ events rs
events-handshakes rs = refl

module _ {V W M : Type 0} {e : Platform V W M} {held : M → List (ProviderTrade W)}
    (laws : PipeLaws e held) where
  -- With a pipe that keeps PipeLaws: a worker that goes on from `while (running)` while `ioc` holds no
  -- handler of an earlier session opens a connection and, once the four handshakes have succeeded, reads
  -- messages for as long as an operation is pending, and one more, with no step of Stop in between. If no
  -- warning is written, the pipe then holds exactly the trades of the messages that are read before the
  -- first error behind those that it held, in their order, each stamped with its reading of the clock.
  pub run_steps-all :
      (config : ProviderConfig M) (x : Venue) (p : Live M) (m : M) (rs : List Reply)
      (ec : ErrorCode) (sni : Bool) (bytes : Text)
      → p.worker ≡ Worker.entered
      → IsFree (provider e config x) p
      → has_work (session (provider e config x) (events (handshakes ++ rs))).pending ≡ true
      → p.feed.pipe_manager ≡ some m
      → let q =
          run_steps
            (provider e config x)
            (opens (provider e config x) p)
            (outcomes (handshakes ++ (rs ++ (ec, sni, bytes) ∷ []))) in
        q.feed.warnings ≡ p.feed.warnings
        → (m' : M) × (q.feed.pipe_manager ≡ some m')
          × (held m'
              ≡ held m
                ++ stamped e p.feed.readings
                    (all_trades e x (received (events (rs ++ (ec, sni, bytes) ∷ [])))))
  run_steps-all config x p m rs ec sni bytes at free works piped quiet =
      let (serving, kept, fed) =
        run_steps-connect (provider e config x) p (handshakes ++ rs) ec sni bytes at free works in
      let (m', leads, all) =
        connect-all laws config x p.feed m (events (rs ++ (ec, sni, bytes) ∷ [])) piped
          (sym (ap (λ f. f.warnings) fed) ∙ quiet) in
      (m', ap (λ f. f.pipe_manager) fed ∙ leads, all)

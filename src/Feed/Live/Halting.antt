-- ===== src/Feed/Live/Halting.antt =====
-- base_provider.cpp: the steps of the worker, and of Stop, once `running` is off.
use consolidated_book.Common.{
  ℕ, ◌-◌, ◌≤◌, ◌≡◌, ◌≢◌, refl, ◌∙◌, List, [], ◌∷◌, Bool, true, false, arith, Bool-cases, inl, inr,
}
use consolidated_book.Session.{ErrorCode}
use consolidated_book.Feed.Providers.{ExchangeProvider}
use consolidated_book.Feed.Live.{
  Worker, Caller, Handler, Live, has_thread, in_try, Outcome, stop_step, handle_reconnection,
  count_reconnection, advance, no_handler, run_step, run_steps,
}
use consolidated_book.Feed.Live.Handlers.{finish-IsKept, serve-cases}
use consolidated_book.Feed.Live.View.{in_stop}

-- The steps of the worker up to the end of Run, where `running` is off and `ioc` stays stopped.
abbrev pub rank : Worker → ℕ
rank Worker.absent = 0
rank Worker.looping = 1
rank Worker.entered = 6
rank Worker.restarted = 5
rank Worker.made = 4
rank Worker.serving = 3
rank (Worker.handling h) = 4
rank Worker.dropped = 2
rank Worker.reconnecting = 2
rank Worker.counting = 3
rank (Worker.sleeping d) = 2
rank Worker.ended = 0

abbrev pub in_handler : Worker → Bool
in_handler (Worker.handling h) = true
in_handler w = false

pub rank_past : (w : Worker) → w ≢ Worker.entered → rank w ≤ 5
rank_past w past = ground arith

rank-in_try : (w : Worker) → in_try w ≡ true → 2 ≤ rank w - 1
rank-in_try Worker.entered h = omega arith
rank-in_try Worker.restarted h = omega arith
rank-in_try Worker.made h = omega arith
rank-in_try Worker.serving h = omega arith
rank-in_try (Worker.handling t) h = omega arith
rank-in_try w h = cc

module _ {M : Type 0} where
  -- A provider in a call of Stop that has turned `running` off, or that this call has stopped.
  pub record IsStopping (p : Live M) : Type 0 where
    pub off : p.running ≡ false
    pub past : p.worker ≢ Worker.entered
    pub held : in_stop p.caller ≡ true → has_thread p.worker ≡ true
    pub halted : p.caller ≡ Caller.joining → p.ioc_stopped ≡ true
    pub gone : p.caller ≡ Caller.outside → p.worker ≡ Worker.absent

  joining-IsStopping :
      (p : Live M) (ec : ErrorCode) (w : Worker)
      → p.worker ≡ w
      → p.caller ≡ Caller.joining
      → IsStopping p
      → IsStopping (stop_step p ec)
  unfolding stop_step
  joining-IsStopping p ec w here at v = ground (arith, v.halted at)

  pub stop_step-IsStopping :
      (p : Live M) (ec : ErrorCode) (c : Caller)
      → p.caller ≡ c
      → IsStopping p
      → IsStopping (stop_step p ec)
  unfolding stop_step
  stop_step-IsStopping p ec Caller.outside at v = ground arith
  stop_step-IsStopping p ec Caller.exchanged at v = ground (arith, v.held (ground arith))
  stop_step-IsStopping p ec Caller.halting at v = ground (arith, v.held (ground arith))
  stop_step-IsStopping p ec Caller.joining at v = joining-IsStopping p ec p.worker refl at v

module _ {M : Type 0} (x : ExchangeProvider M) where
  advance-at :
      (p : Live M) (h : Handler) (w : Worker)
      → p.worker ≡ w
      → IsStopping p
      → IsStopping (advance x p h)
  unfolding advance handle_reconnection count_reconnection
  advance-at p h Worker.absent at v = ground arith
  advance-at p h Worker.looping at v = ground arith
  advance-at p h Worker.entered at v = ground arith
  advance-at p h Worker.restarted at v = ground arith
  advance-at p h Worker.made at v = ground arith
  advance-at p h Worker.serving at v = elim (serve-cases x p h at) [
    | inl over ↦ ground (arith, over)
    | inr (runs, kept, silent) ↦ ground (arith, kept, runs)
  ]
  advance-at p h (Worker.handling h') at v =
      let (kept, serving) = finish-IsKept x p h' in ground (arith, kept, serving)
  advance-at p h Worker.dropped at v = ground arith
  advance-at p h Worker.reconnecting at v = ground arith
  advance-at p h Worker.counting at v = ground arith
  advance-at p h (Worker.sleeping d) at v = ground arith
  advance-at p h Worker.ended at v = ground arith

  dropped-IsStopping :
      (p : Live M)
      → in_try p.worker ≡ true
      → IsStopping p
      → IsStopping (record p { worker = Worker.dropped })
  dropped-IsStopping p at v = ground arith

  pub run_step-IsStopping : (p : Live M) (o : Outcome) → IsStopping p → IsStopping (run_step x p o)
  unfolding run_step
  run_step-IsStopping p (Outcome.ends w ec sni bytes) v =
      advance-at p (record { whose = w; ec = ec; sni = sni; bytes = bytes }) p.worker refl v
  run_step-IsStopping p Outcome.throws v = elim (Bool-cases (in_try p.worker)) [
    | inl at ↦ rw at (dropped-IsStopping p at v)
    | inr out ↦ rw out (advance-at p no_handler p.worker refl v)
  ]

  -- A step of the worker leaves the caller where it is, and once `ioc` is stopped it comes closer to the
  -- end of Run, is in no handler then, and handles no message unless it is in a handler.
  pub record IsQuiet (p q : Live M) : Type 0 where
    pub waits : q.caller ≡ p.caller
    pub ranked : p.ioc_stopped ≡ true → rank q.worker ≤ rank p.worker - 1
    pub leaves : p.ioc_stopped ≡ true → in_handler q.worker ≡ false
    pub silent : p.ioc_stopped ≡ true → in_handler p.worker ≡ false → q.feed ≡ p.feed

  advance-IsQuiet :
      (p : Live M) (h : Handler) (w : Worker)
      → p.worker ≡ w
      → IsStopping p
      → IsQuiet p (advance x p h)
  unfolding advance handle_reconnection count_reconnection
  advance-IsQuiet p h Worker.absent at v = ground arith
  advance-IsQuiet p h Worker.looping at v = ground arith
  advance-IsQuiet p h Worker.entered at v = ground arith
  advance-IsQuiet p h Worker.restarted at v = ground arith
  advance-IsQuiet p h Worker.made at v = ground arith
  advance-IsQuiet p h Worker.serving at v = elim (serve-cases x p h at) [
    | inl over ↦ ground (arith, over)
    | inr (runs, kept, silent) ↦ ground (arith, kept, runs)
  ]
  advance-IsQuiet p h (Worker.handling h') at v =
      let (kept, serving) = finish-IsKept x p h' in ground (arith, kept, serving)
  advance-IsQuiet p h Worker.dropped at v = ground arith
  advance-IsQuiet p h Worker.reconnecting at v = ground arith
  advance-IsQuiet p h Worker.counting at v = ground arith
  advance-IsQuiet p h (Worker.sleeping d) at v = ground arith
  advance-IsQuiet p h Worker.ended at v = ground arith

  dropped-IsQuiet :
      (p : Live M) → in_try p.worker ≡ true → IsQuiet p (record p { worker = Worker.dropped })
  dropped-IsQuiet p at = record {
    waits = refl;
    ranked = λ h. rank-in_try p.worker at;
    leaves = λ h. refl;
    silent = λ h out. refl;
  }

  pub run_step-IsQuiet : (p : Live M) (o : Outcome) → IsStopping p → IsQuiet p (run_step x p o)
  unfolding run_step
  run_step-IsQuiet p (Outcome.ends w ec sni bytes) v =
      advance-IsQuiet p (record { whose = w; ec = ec; sni = sni; bytes = bytes }) p.worker refl v
  run_step-IsQuiet p Outcome.throws v = elim (Bool-cases (in_try p.worker)) [
    | inl at ↦ rw at (dropped-IsQuiet p at)
    | inr out ↦ rw out (advance-IsQuiet p no_handler p.worker refl v)
  ]

  pub run_steps-quiet :
      (p : Live M) (os : List Outcome)
      → IsStopping p
      → IsStopping (run_steps x p os)
        × ((run_steps x p os).caller ≡ p.caller)
        × (p.caller ≡ Caller.joining
            → (rank (run_steps x p os).worker ≤ rank p.worker)
              × (in_handler p.worker ≡ false → (run_steps x p os).feed ≡ p.feed))
  unfolding run_steps
  run_steps-quiet p [] v = (v, refl, λ h. (omega arith, λ out. refl))
  run_steps-quiet p (o ∷ os) v =
      let one = run_step-IsQuiet p o v in
      let (v', waits, later) = run_steps-quiet (run_step x p o) os (run_step-IsStopping p o v) in
      (
        v',
        waits ∙ one.waits,
        λ h.
            let (less, silent) = later (one.waits ∙ h) in
            let halted = v.halted h in
            (
              omega (arith, one.ranked halted),
              λ out. silent (one.leaves halted) ∙ one.silent halted out,
            ),
      )

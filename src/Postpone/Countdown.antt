-- ===== src/Postpone/Countdown.antt =====
-- include/pef_action.hpp: what the postpone timer writes.
use platform_event_filter.Common.{
  ℕ, zero, suc, ◌+◌, ◌≡◌, refl, sym, ap, ◌∙◌, ◌||◌, ◌==◌, if◌then◌else◌, some, List, [], ◌∷◌, ◌++◌,
  String, arith,
}
use platform_event_filter.Exec.{Event, World, done, set_countdown, set_arm_timer, ◌>>=◌}
use platform_event_filter.Exec.Adds.{Adds, Adds-pure, Adds-bind, Adds-when}
use platform_event_filter.Bus.{Bus, Reply, raised, message, Value, u8}
use platform_event_filter.Bus.Calls.{or_raise, call, or_unreadable, get_u8}
use platform_event_filter.Postpone.{set_logged, count_down, run_timer, pef_postpone_tmr_callback}

-- The countdown writes of `i`, `i + 1`, and so on, `n` of them.
abbrev pub countdowns : ℕ → ℕ → List Event
countdowns i zero = []
countdowns i (suc n) = set_countdown i ∷ countdowns (suc i) n

countdowns-last : (i n : ℕ) → countdowns i n ++ (set_countdown (i + n) ∷ []) ≡ countdowns i (suc n)
countdowns-last i zero = ap (λ k. set_countdown k ∷ []) (omega arith)
countdowns-last i (suc n) = ap (◌∷◌ (set_countdown i)) (
    ap (λ k. countdowns (suc i) n ++ (set_countdown k ∷ [])) (omega arith)
    ∙ countdowns-last (suc i) n)

-- What a timer writes, latest first: so the countdown of `t` goes from `t - 1` to 0.
unfoldable pub timer_events : ℕ → List Event
timer_events timer =
    if timer == 0x00 || timer == 0xFF
    then []
    else if timer == 0xFE
    then set_countdown timer ∷ []
    else set_arm_timer 0 ∷ countdowns 0 timer

module _ (bus : Bus) where
  written :
      (event : Event) (w : World) (r : Reply (Unit {0}))
      → bus.set w.calls ≡ r
      → (k : ℕ) × (set_logged bus event w
          ≡ (done tt, record { calls = k; trace = event ∷ w.trace }))
  unfolding set_logged call or_raise ◌>>=◌
  written event w raised h = (suc w.calls, rw h)
  written event w (message m) h = (suc w.calls, rw h)

  set_logged-Adds : (event : Event) → Adds (set_logged bus event) tt (event ∷ [])
  set_logged-Adds event = record { at = λ w. written event w (bus.set w.calls) refl }

  count_down-Adds : (timer : ℕ) → Adds (count_down bus timer) tt (countdowns 0 timer)
  unfolding count_down
  count_down-Adds zero = Adds-pure tt
  count_down-Adds (suc timer) =
      let last : countdowns 0 (suc timer) ≡ countdowns 0 timer ++ (set_countdown timer ∷ []) = sym (
        ap (λ k. countdowns 0 timer ++ (set_countdown k ∷ [])) (omega arith)
        ∙ countdowns-last 0 timer) in
      rw last (Adds-bind _ _ tt (set_logged-Adds (set_countdown timer)) (count_down-Adds timer))

  run_timer-Adds : (timer : ℕ) → Adds (run_timer bus timer) tt (timer_events timer)
  unfolding run_timer timer_events
  run_timer-Adds timer =
      Adds-when (timer == 0x00 || timer == 0xFF) (λ _. Adds-pure tt)
        (λ _.
          Adds-when (timer == 0xFE) (λ _. set_logged-Adds (set_countdown timer))
            (λ _.
              Adds-bind (count_down bus timer) (λ _. set_logged bus (set_arm_timer 0)) tt
                (count_down-Adds timer) (set_logged-Adds (set_arm_timer 0))))

  -- A signal whose first property is a byte makes the callback write what `timer_events` lists, whether
  -- or not each write succeeds: nothing for 0 and 0xFF, the countdown value once for 0xFE, and for any
  -- other value each second below it down to 0, then 0 to the timer itself.
  pub pef_postpone_tmr_callback-Adds :
      (property : String) (timer : ℕ) (rest : List (String × Value))
      → Adds
          (pef_postpone_tmr_callback bus (some ((property, u8 timer) ∷ rest)))
          tt
          (timer_events timer)
  unfolding pef_postpone_tmr_callback or_unreadable get_u8 ◌>>=◌
  pef_postpone_tmr_callback-Adds property timer rest = record {
    at = λ w. (run_timer-Adds timer).at w;
  }

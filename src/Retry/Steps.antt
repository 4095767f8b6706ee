-- ===== src/Retry/Steps.antt =====
-- src/pef_action.cpp, `main`: the property setters as steps of the daemon, and what every reachable
-- state satisfies.
use platform_event_filter.Common.{
  ℕ, ◌≤◌, ◌<◌, ◌≡◌, refl, ◌↔◌, ap, Bool, true, false, not, ltb, if◌then◌else◌, arith,
}
use platform_event_filter.Retry.{
  Settings, File, Write, Server, eperm, einval, Result, rejected, accepted, start, store, guarded,
  set_retry_enable, set_retry_count, set_time_interval, set_alerts_limit, max_retry, max_interval,
  max_alerts_limit,
}
use platform_event_filter.Retry.Start.{WithinLimits, NoNegatives, load-WithinLimits}

-- One property write, however the write of the file ends: the new state, or the error and the state as
-- it was.
abbrev pub after : Server → Result → Server
after s (rejected e) = s
after s (accepted t) = t

pub data Step (s : Server) : Server → Type 0 where
  retry_enable : (b : Bool) (w : Write) → Step s (after s (set_retry_enable b w s))
  retry_count : (n : ℕ) (w : Write) → Step s (after s (set_retry_count n w s))
  time_interval : (n : ℕ) (w : Write) → Step s (after s (set_time_interval n w s))
  alerts_limit : (n : ℕ) (w : Write) → Step s (after s (set_alerts_limit n w s))

-- The states of a run that starts with this file.
pub data Reachable (f : File) : Server → Type 0 where
  started : Reachable f (start f)
  stepped : {s t : Server} → Reachable f s → Step s t → Reachable f t

-- The properties show the globals, which are within their limits.
pub record IsSound (s : Server) : Type 0 where
  pub in_sync : s.properties ≡ s.globals
  pub within : WithinLimits s.globals

store-IsSound :
    (change : Settings → Settings) (w : Write) (s : Server)
    → IsSound s
    → WithinLimits (change s.globals)
    → IsSound (store change w s)
unfolding store
store-IsSound change w s h k = record { in_sync = ap change h.in_sync; within = k }

choice-IsSound :
    (on above : Bool) (s t : Server)
    → IsSound s
    → (above ≡ false → IsSound t)
    → IsSound
        (after s (if not on then rejected eperm else if above then rejected einval else accepted t))
choice-IsSound false above s t h k = h
choice-IsSound true true s t h k = h
choice-IsSound true false s t h k = k refl

guarded-IsSound :
    (n limit : ℕ) (change : Settings → Settings) (w : Write) (s : Server)
    → IsSound s
    → (n ≤ limit → WithinLimits (change s.globals))
    → IsSound (after s (guarded n limit change w s))
unfolding guarded
guarded-IsSound n limit change w s h k =
    choice-IsSound s.globals.retry_enable (ltb limit n) s (store change w s) h
      (λ e. store-IsSound change w s h (k (ground arith)))

Step-IsSound : {s t : Server} → IsSound s → Step s t → IsSound t
unfolding set_retry_enable set_retry_count set_time_interval set_alerts_limit
Step-IsSound {s} h (retry_enable b w) =
    store-IsSound _ w s h
      (record { count = h.within.count; interval = h.within.interval; alerts = h.within.alerts })
Step-IsSound {s} h (retry_count n w) =
    guarded-IsSound n max_retry _ w s h
      (λ l. record { count = l; interval = h.within.interval; alerts = h.within.alerts })
Step-IsSound {s} h (time_interval n w) =
    guarded-IsSound n max_interval _ w s h
      (λ l. record { count = h.within.count; interval = l; alerts = h.within.alerts })
Step-IsSound {s} h (alerts_limit n w) =
    guarded-IsSound n max_alerts_limit _ w s h
      (λ l. record { count = h.within.count; interval = h.within.interval; alerts = l })

-- In every state that is reached from a file without numbers that are negative as a 32-bit `int`, by any
-- property writes, whether or not saving succeeds, the properties show the globals and these are within their
-- limits.
pub Reachable-IsSound : (f : File) (s : Server) → NoNegatives f → Reachable f s → IsSound s
unfolding start
Reachable-IsSound f s p started = record { in_sync = refl; within = load-WithinLimits f p }
Reachable-IsSound f s p (stepped {s = s'} r st) = Step-IsSound (Reachable-IsSound f s' p r) st

-- A write of a bounded setting is refused with EPERM exactly if retries are off, with EINVAL exactly if
-- they are on and the value is above the limit, and is stored otherwise.
pub guarded_lem :
    (n limit : ℕ) (change : Settings → Settings) (w : Write) (s : Server)
    → ((guarded n limit change w s ≡ rejected eperm) ↔ (s.globals.retry_enable ≡ false))
      × ((guarded n limit change w s ≡ rejected einval)
          ↔ ((s.globals.retry_enable ≡ true) × (limit < n)))
      × ((guarded n limit change w s ≡ accepted (store change w s))
          ↔ ((s.globals.retry_enable ≡ true) × (n ≤ limit)))
unfolding guarded
guarded_lem n limit change w s = ground arith

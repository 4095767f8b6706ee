-- ===== src/Bus/Answers.antt =====
-- A method call that is answered, and the reading of its reply.
use platform_event_filter.Common.{ℕ, ◌≡◌, false, some, []}
use platform_event_filter.Exec.{ask}
use platform_event_filter.Exec.Adds.{Adds, Adds-pure, Adds-ask, Adds-bind}
use platform_event_filter.Bus.{Reply, Message, message}
use platform_event_filter.Bus.Calls.{or_raise, or_unreadable, call, read}

pub call-Adds :
    {A : Type 0} (answer : ℕ → Reply A) (m : Message A)
    → ((n : ℕ) → answer n ≡ message m)
    → Adds (call answer) m []
unfolding call or_raise
call-Adds answer m h = Adds-bind (ask answer) or_raise _ (Adds-ask answer _ h) (Adds-pure m)

pub read-Adds : {A : Type 0} (a : A) → Adds (read (record { is_error = false; body = some a })) a []
unfolding read or_unreadable
read-Adds a = Adds-pure a

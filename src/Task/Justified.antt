-- ===== src/Task/Justified.antt =====
-- src/pef_action.cpp: an event reaches the outside only through an open gate and a filter that accepts
-- it.
use mathlib.Core.Logic.{∥∥₁_elim}
use mathlib.Core.List.{Mem, Memᴰ}
use platform_event_filter.Common.{
  ℕ, ◌+◌, ◌≡◌, ◌⊎◌, Bool, true, false, ◌&&◌, ◌||◌, ◌==◌, ◌!=◌, bit, bit_and, Option, none, some,
  List, [], ◌∷◌, All, arith, String,
}
use platform_event_filter.Common.Bits.{bit_and_single}
use platform_event_filter.EventData.{EventMsgData}
use platform_event_filter.Exec.{Event, pure, ◌>>=◌}
use platform_event_filter.Exec.Keeps.{Emits, Emits-pure, Emits-bind, Emits-when}
use platform_event_filter.Exec.Gives.{CanGive, Gives-CanGive, Emits-given}
use platform_event_filter.Bus.{Bus}
use platform_event_filter.Bus.Calls.{call_rules}
use platform_event_filter.Channels.{EthChannelMap, Emits-eth_map}
use platform_event_filter.Filter.{EvtFilterTblEntry}
use platform_event_filter.Filter.Table.{
  event_filter_table_path, get_immediate_child_object_path_count, Emits-count, Emits-groups,
}
use platform_event_filter.Filter.Collected.{IsCollected, match_groups-Gives}
use platform_event_filter.Action.{perform_pef_action}
use platform_event_filter.Action.Power.{PefConfInfo}
use platform_event_filter.Action.Allowed.{Allowed, perform_pef_action-Emits}
use platform_event_filter.Task.{
  byte_at, get_pef_conf_info, act_on, event_filtering_process, get_byte, gated, read_control,
  read_timer, pef_task,
}

-- A row of one of the counted filter groups, as the service can give the group, which accepts the message, and a
-- configuration that the service can give, allow the event.
pub record Filtered (bus : Bus) (msg : EventMsgData) (event : Event) : Type 0 where
  pub conf : PefConfInfo
  pub given : CanGive (get_pef_conf_info bus) (some conf)
  pub count : ℕ
  pub counted : CanGive (get_immediate_child_object_path_count bus event_filter_table_path) count
  pub entry : EvtFilterTblEntry
  pub collected : ∥ IsCollected bus msg 1 (count + 1) entry ∥₁
  pub allowed : Allowed conf entry event

-- Moreover the service gives a PEFControl with the enable bit set and a postpone timer that is not
-- running.
pub record Justified (bus : Bus) (msg : EventMsgData) (event : Event) : Type 0 where
  pub pef_ctl : ℕ
  pub control_given : CanGive (read_control bus) (some pef_ctl)
  pub enabled : bit 0 pef_ctl ≡ true
  pub timer : ℕ
  pub timer_given : CanGive (read_timer bus) (some timer)
  pub idle : (timer ≡ 0x00) ⊎ (timer ≡ 0xFF)
  pub filtered : Filtered bus msg event

module _ (P : EvtFilterTblEntry → Type 0) where
  All-Memᴰ : (es : List EvtFilterTblEntry) (e : EvtFilterTblEntry) → All P es → Memᴰ e es → P e
  All-Memᴰ [] e h m = elim m [ ]
  All-Memᴰ (x ∷ xs) e (h, hs) (Memᴰ.head q) = rw q h
  All-Memᴰ (x ∷ xs) e (h, hs) (Memᴰ.tail m) = All-Memᴰ xs e hs m

  All-Mem : (es : List EvtFilterTblEntry) (e : EvtFilterTblEntry) → All P es → Mem e es → ∥ P e ∥₁
  All-Mem es e h m = ∥∥₁_elim m (hlevel) (λ d. ∣ All-Memᴰ es e h d ∣₁)

module _ (bus : Bus) {P : Event → Type 0} where
  conf-Emits : Emits P (get_pef_conf_info bus)
  unfolding get_pef_conf_info byte_at
  conf-Emits = search call_rules depth 20

  get_byte-Emits : (obj intf property : String) → Emits P (get_byte bus obj intf property)
  unfolding get_byte
  get_byte-Emits obj intf property = search call_rules depth 10

module _ (bus : Bus) (msg : EventMsgData) {P : Event → Type 0}
    (keep : (e : Event) → Filtered bus msg e → P e) (count : ℕ)
    (counted : CanGive
      (get_immediate_child_object_path_count bus event_filter_table_path)
      count) where
  perform-Emits :
      (retry_enable : Bool) (es : List EvtFilterTblEntry) (eth_map : EthChannelMap)
      → All (IsCollected bus msg 1 (count + 1)) es
      → (conf : Option PefConfInfo) → CanGive (get_pef_conf_info bus) conf
      → Emits P (elim conf [
        | none ↦ pure tt
        | some c ↦ perform_pef_action bus retry_enable es msg eth_map c
      ])
  perform-Emits retry_enable es eth_map h none g = Emits-pure tt
  perform-Emits retry_enable es eth_map h (some c) g =
      perform_pef_action-Emits bus retry_enable msg eth_map c es (λ entry m event a.
        keep event (record {
          conf = c;
          given = g;
          count = count;
          counted = counted;
          entry = entry;
          collected = All-Mem (IsCollected bus msg 1 (count + 1)) es entry h m;
          allowed = a;
        }))

  act_on-Emits :
      (retry_enable : Bool) (es : List EvtFilterTblEntry)
      → All (IsCollected bus msg 1 (count + 1)) es
      → Emits P (act_on bus retry_enable es msg)
  unfolding act_on
  act_on-Emits retry_enable [] h = Emits-pure tt
  act_on-Emits retry_enable (e ∷ es) h = Emits-bind _ _ (Emits-eth_map bus) λ eth_map.
      Emits-given _ _ (conf-Emits bus) (Gives-CanGive _)
        (perform-Emits retry_enable (e ∷ es) eth_map h)

module _ (bus : Bus) (msg : EventMsgData) {P : Event → Type 0}
    (keep : (e : Event) → Filtered bus msg e → P e) where
  event_filtering_process-Emits :
      (retry_enable : Bool) → Emits P (event_filtering_process bus retry_enable msg)
  unfolding event_filtering_process
  event_filtering_process-Emits retry_enable =
      Emits-given _ _ (Emits-count bus _) (Gives-CanGive _) λ count g.
        Emits-when (count == 0) _ _ (λ _. Emits-pure tt)
          λ _.
            Emits-given _ _ (Emits-groups bus msg count 1) (match_groups-Gives bus msg count 1)
              (λ matched h.
                act_on-Emits bus msg keep count g retry_enable matched (at_end count matched h))
    where
      at_end :
          (count : ℕ) (es : List EvtFilterTblEntry)
          → All (IsCollected bus msg 1 (1 + count)) es
          → All (IsCollected bus msg 1 (count + 1)) es
      at_end count es h = let e : 1 + count ≡ count + 1 = omega arith in rw (e) at h

module _ (bus : Bus) (msg : EventMsgData) where
  closed_lem : (pef_ctl : ℕ) → (0 == bit_and pef_ctl 0x01) ≡ false → bit 0 pef_ctl ≡ true
  closed_lem pef_ctl h = ground (arith, bit_and_single 0 pef_ctl)

  idle_lem :
      (timer : ℕ)
      → (timer == 0xFE || (timer != 0x00 && timer != 0xFF)) ≡ false
      → (timer ≡ 0x00) ⊎ (timer ≡ 0xFF)
  idle_lem timer h = ground arith

  gated-Emits :
      (retry_enable : Bool) (pef_ctl timer : ℕ)
      → CanGive (read_control bus) (some pef_ctl)
      → CanGive (read_timer bus) (some timer)
      → Emits (Justified bus msg) (gated bus retry_enable msg pef_ctl timer)
  unfolding gated
  gated-Emits retry_enable pef_ctl timer g g' =
      Emits-when _ _ _ (λ _. Emits-pure tt)
        λ idle.
          Emits-when _ _ _ (λ _. Emits-pure tt)
            λ enabled.
              event_filtering_process-Emits bus msg
                (λ event f. record {
                  pef_ctl = pef_ctl;
                  control_given = g;
                  enabled = closed_lem pef_ctl enabled;
                  timer = timer;
                  timer_given = g';
                  idle = idle_lem timer idle;
                  filtered = f;
                })
                retry_enable

  timer-Emits :
      (retry_enable : Bool) (pef_ctl : ℕ)
      → CanGive (read_control bus) (some pef_ctl)
      → (timer : Option ℕ) → CanGive (read_timer bus) timer
      → Emits (Justified bus msg) (elim timer [
        | none ↦ pure tt
        | some pef_postpone_timer ↦ gated bus retry_enable msg pef_ctl pef_postpone_timer
      ])
  timer-Emits retry_enable pef_ctl g none g' = Emits-pure tt
  timer-Emits retry_enable pef_ctl g (some timer) g' = gated-Emits retry_enable pef_ctl timer g g'

  control-Emits :
      (retry_enable : Bool) (control : Option ℕ)
      → CanGive (read_control bus) control
      → Emits (Justified bus msg) (elim control [
        | none ↦ pure tt
        | some pef_ctl ↦ do
          timer ← read_timer bus
          elim timer [
            | none ↦ pure tt
            | some pef_postpone_timer ↦ gated bus retry_enable msg pef_ctl pef_postpone_timer
          ]
      ])
  control-Emits retry_enable none g = Emits-pure tt
  control-Emits retry_enable (some pef_ctl) g =
      Emits-given _ _ (get_byte-Emits bus _ _ _) (Gives-CanGive _)
        (timer-Emits retry_enable pef_ctl g)

  pef_task-Emits : (retry_enable : Bool) → Emits (Justified bus msg) (pef_task bus retry_enable msg)
  unfolding pef_task
  pef_task-Emits retry_enable =
      Emits-given _ _ (get_byte-Emits bus _ _ _) (Gives-CanGive _) (control-Emits retry_enable)

  -- Whatever the other services answer, each event of a run of the task from an empty trace is one that a
  -- filter asks for and the global control allows, for a configuration that the service can give. The filter
  -- accepts the message, and is a row of the columns that the service can answer for a filter group, numbered
  -- from 1 to a count that the service can give. And the service can give a PEFControl whose enable bit is set
  -- and a postpone timer that is 0 or 0xFF.
  pub pef_task-Justified :
      (retry_enable : Bool) (calls : ℕ)
      → All
          (Justified bus msg)
          (pef_task bus retry_enable msg (record { calls = calls; trace = [] })).1.trace
  pef_task-Justified retry_enable calls =
      (pef_task-Emits retry_enable).at (record { calls = calls; trace = [] }) tt

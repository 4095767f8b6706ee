-- ===== src/Exec/Keeps.antt =====
-- Rules for what every event of a run satisfies, one for each way to build a run.
use platform_event_filter.Common.{
  ℕ, ◌≡◌, refl, Bool, true, false, Option, none, some, List, [], ◌∷◌, All, if◌then◌else◌,
}
use platform_event_filter.Exec.{
  Thrown, sdbus_error, std_error, fault, Outcome, done, thrown, Event, World, Exec, pure, throw,
  ask, emit, ◌>>=◌, catch_sdbus, catch_std, or_throw, or_fault, for_each, and_then,
}

-- Whatever the environment answers, each event that `m` adds to the trace satisfies `P`.
pub record Emits {A : Type 0} (P : Event → Type 0) (m : Exec A) : Type 0 where
  pub at : (w : World) → All P w.trace → All P (m w).1.trace

module _ {A : Type 0} {P : Event → Type 0} where
  pub Emits-pure : (a : A) → Emits P (pure a)
  unfolding ◌>>=◌
  Emits-pure a = record { at = λ w h. h }

  pub Emits-throw : (e : Thrown) → Emits P (throw {A = A} e)
  unfolding ◌>>=◌
  Emits-throw e = record { at = λ w h. h }

  pub Emits-ask : (f : ℕ → A) → Emits P (ask f)
  unfolding ◌>>=◌
  Emits-ask f = record { at = λ w h. h }

  pub Emits-or_throw : (o : Option A) → Emits P (or_throw o)
  unfolding ◌>>=◌
  Emits-or_throw none = Emits-throw std_error
  Emits-or_throw (some a) = Emits-pure a

  pub Emits-or_fault : (o : Option A) → Emits P (or_fault o)
  unfolding ◌>>=◌
  Emits-or_fault none = Emits-throw fault
  Emits-or_fault (some a) = Emits-pure a

  pub Emits-if : (b : Bool) (m n : Exec A) → Emits P m → Emits P n → Emits P (if b then m else n)
  Emits-if true m n hm hn = hm
  Emits-if false m n hm hn = hn

  -- The branch may use the test.
  pub Emits-when :
      (b : Bool) (m n : Exec A)
      → (b ≡ true → Emits P m)
      → (b ≡ false → Emits P n)
      → Emits P (if b then m else n)
  Emits-when true m n hm hn = hm refl
  Emits-when false m n hm hn = hn refl

  on_sdbus-All :
      (handler : Exec A) (r : Outcome A × World)
      → Emits P handler
      → All P r.1.trace
      → All P (catch_sdbus (λ _. r) handler r.1).1.trace
  unfolding catch_sdbus
  on_sdbus-All handler (done a, w) k h = h
  on_sdbus-All handler (thrown sdbus_error, w) k h = k.at w h
  on_sdbus-All handler (thrown std_error, w) k h = h
  on_sdbus-All handler (thrown fault, w) k h = h

  on_std-All :
      (handler : Exec A) (r : Outcome A × World)
      → Emits P handler
      → All P r.1.trace
      → All P (catch_std (λ _. r) handler r.1).1.trace
  unfolding catch_std
  on_std-All handler (done a, w) k h = h
  on_std-All handler (thrown sdbus_error, w) k h = k.at w h
  on_std-All handler (thrown std_error, w) k h = k.at w h
  on_std-All handler (thrown fault, w) k h = h

  pub Emits-catch_sdbus :
      (m handler : Exec A) → Emits P m → Emits P handler → Emits P (catch_sdbus m handler)
  unfolding catch_sdbus
  Emits-catch_sdbus m handler hm hh = record {
    at = λ w h. on_sdbus-All handler (m w) hh (hm.at w h);
  }

  pub Emits-catch_std :
      (m handler : Exec A) → Emits P m → Emits P handler → Emits P (catch_std m handler)
  unfolding catch_std
  Emits-catch_std m handler hm hh = record { at = λ w h. on_std-All handler (m w) hh (hm.at w h) }

module _ {P : Event → Type 0} where
  pub Emits-emit : (e : Event) → P e → Emits P (emit e)
  unfolding ◌>>=◌
  Emits-emit e p = record { at = λ w h. (p, h) }

module _ {A B : Type 0} {P : Event → Type 0} where
  and_then-All :
      (f : A → Exec B) (r : Outcome A × World)
      → ((a : A) → Emits P (f a))
      → All P r.1.trace
      → All P (and_then f r).1.trace
  and_then-All f (done a, w) k h = (k a).at w h
  and_then-All f (thrown e, w) k h = h

  pub Emits-bind :
      (m : Exec A) (f : A → Exec B) → Emits P m → ((a : A) → Emits P (f a)) → Emits P (m >>= f)
  unfolding ◌>>=◌
  Emits-bind m f hm hf = record { at = λ w h. and_then-All f (m w) hf (hm.at w h) }

module _ {A : Type 0} {P : Event → Type 0} where
  pub Emits-for_each :
      (xs : List A) (body : A → Exec (Unit {0}))
      → All (λ x. Emits P (body x)) xs
      → Emits P (for_each xs body)
  unfolding for_each
  Emits-for_each [] body h = Emits-pure tt
  Emits-for_each (x ∷ xs) body h =
      Emits-bind (body x) (λ _. for_each xs body) h.0 (λ _. Emits-for_each xs body h.1)

pub ruleset emits_rules = (
  Emits-pure, Emits-throw, Emits-ask, Emits-or_throw, Emits-or_fault, Emits-if, Emits-catch_sdbus,
  Emits-catch_std, Emits-emit, Emits-bind,
)

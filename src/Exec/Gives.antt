-- ===== src/Exec/Gives.antt =====
-- What a run that succeeds returns, whatever the environment answers.
use platform_event_filter.Common.{◌≡◌, refl, All}
use platform_event_filter.Exec.{
  sdbus_error, std_error, fault, Outcome, done, thrown, Event, World, Exec, pure, ◌>>=◌, and_then,
  catch_sdbus,
}
use platform_event_filter.Exec.Keeps.{Emits}

-- Each result of `m` satisfies `Q`.
abbrev OnDone : {A : Type 0} → (A → Type 0) → Outcome A → Type 0
OnDone Q (done a) = Q a
OnDone Q (thrown e) = Unit

pub record Gives {A : Type 0} (Q : A → Type 0) (m : Exec A) : Type 0 where
  pub at : (w : World) → OnDone Q (m w).0

-- `m` returns `a` from some world.
pub record CanGive {A : Type 0} (m : Exec A) (a : A) : Type 0 where
  pub from : World
  pub to : World
  pub run : m from ≡ (done a, to)

module _ {A : Type 0} where
  pub Gives-pure : {Q : A → Type 0} (a : A) → Q a → Gives Q (pure a)
  unfolding ◌>>=◌
  Gives-pure a q = record { at = λ w. q }

  OnDone-CanGive :
      (m : Exec A) (w : World) (r : Outcome A × World) → m w ≡ r → OnDone (CanGive m) r.0
  OnDone-CanGive m w (done a, w') h = record { from = w; to = w'; run = h }
  OnDone-CanGive m w (thrown e, w') h = tt

  pub Gives-CanGive : (m : Exec A) → Gives (CanGive m) m
  Gives-CanGive m = record { at = λ w. OnDone-CanGive m w (m w) refl }

  on_sdbus-OnDone :
      {Q : A → Type 0} (handler : Exec A) (r : Outcome A × World)
      → Gives Q handler
      → OnDone Q r.0
      → OnDone Q (catch_sdbus (λ _. r) handler r.1).0
  unfolding catch_sdbus
  on_sdbus-OnDone handler (done a, w) k h = h
  on_sdbus-OnDone handler (thrown sdbus_error, w) k h = k.at w
  on_sdbus-OnDone handler (thrown std_error, w) k h = h
  on_sdbus-OnDone handler (thrown fault, w) k h = h

  pub Gives-catch_sdbus :
      {Q : A → Type 0} (m handler : Exec A)
      → Gives Q m
      → Gives Q handler
      → Gives Q (catch_sdbus m handler)
  unfolding catch_sdbus
  Gives-catch_sdbus m handler hm hh = record {
    at = λ w. on_sdbus-OnDone handler (m w) hh (hm.at w);
  }

module _ {A B : Type 0} {Q : A → Type 0} where
  and_then-OnDone :
      {R : B → Type 0} (f : A → Exec B) (r : Outcome A × World)
      → OnDone Q r.0
      → ((a : A) → Q a → Gives R (f a))
      → OnDone R (and_then f r).0
  and_then-OnDone f (done a, w) q k = (k a q).at w
  and_then-OnDone f (thrown e, w) q k = tt

  pub Gives-bind :
      {R : B → Type 0} (m : Exec A) (f : A → Exec B)
      → Gives Q m
      → ((a : A) → Q a → Gives R (f a))
      → Gives R (m >>= f)
  unfolding ◌>>=◌
  Gives-bind m f hm hf = record { at = λ w. and_then-OnDone f (m w) (hm.at w) hf }

  and_then-All :
      {P : Event → Type 0} (f : A → Exec B) (r : Outcome A × World)
      → OnDone Q r.0
      → ((a : A) → Q a → Emits P (f a))
      → All P r.1.trace
      → All P (and_then f r).1.trace
  and_then-All f (done a, w) q k h = (k a q).at w h
  and_then-All f (thrown e, w) q k h = h

  -- The rest of a run may use what its first part returned.
  pub Emits-given :
      {P : Event → Type 0} (m : Exec A) (f : A → Exec B)
      → Emits P m
      → Gives Q m
      → ((a : A) → Q a → Emits P (f a))
      → Emits P (m >>= f)
  unfolding ◌>>=◌
  Emits-given m f hm g hf = record { at = λ w h. and_then-All f (m w) (g.at w) hf (hm.at w h) }

module _ {A B : Type 0} where
  -- Nothing is said of the first result.
  pub Gives-after :
      {R : B → Type 0} (m : Exec A) (f : A → Exec B) → ((a : A) → Gives R (f a)) → Gives R (m >>= f)
  Gives-after m f h = Gives-bind m f (Gives-CanGive m) (λ a q. h a)

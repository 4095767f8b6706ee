-- ===== src/Exec/Adds.antt =====
-- What a run that succeeds returns and adds to the trace, from every world.
use mathlib.Core.List.{append_assoc}
use platform_event_filter.Common.{
  ℕ, suc, ◌≡◌, refl, ap, sym, ◌∙◌, Bool, true, false, if◌then◌else◌, List, [], ◌∷◌, ◌++◌,
}
use platform_event_filter.Exec.{
  Event, World, done, Exec, pure, ask, emit, ◌>>=◌, and_then, catch_sdbus, catch_std,
}

-- `m` returns `a`, with the events `es` before the trace.
pub record Adds {A : Type 0} (m : Exec A) (a : A) (es : List Event) : Type 0 where
  pub at : (w : World) → (k : ℕ) × (m w ≡ (done a, record { calls = k; trace = es ++ w.trace }))

module _ {A : Type 0} where
  pub Adds-pure : (a : A) → Adds (pure a) a []
  unfolding ◌>>=◌
  Adds-pure a = record { at = λ w. (w.calls, refl) }

  pub Adds-ask : (f : ℕ → A) (a : A) → ((n : ℕ) → f n ≡ a) → Adds (ask f) a []
  unfolding ◌>>=◌
  Adds-ask f a h = record {
    at = λ w. (suc w.calls, ap (λ x. (done x, record w { calls = suc w.calls })) (h w.calls));
  }

  pub Adds-catch_sdbus :
      (m handler : Exec A) (a : A) (es : List Event)
      → Adds m a es
      → Adds (catch_sdbus m handler) a es
  unfolding catch_sdbus
  Adds-catch_sdbus m handler a es h = record {
    at = λ w. let (k, e) = h.at w in (k, rw (e, catch_sdbus));
  }

  pub Adds-catch_std :
      (m handler : Exec A) (a : A) (es : List Event) → Adds m a es → Adds (catch_std m handler) a es
  unfolding catch_std
  Adds-catch_std m handler a es h = record {
    at = λ w. let (k, e) = h.at w in (k, rw (e, catch_std));
  }

  pub Adds-eq : {m n : Exec A} {a : A} {es : List Event} → m ≡ n → Adds n a es → Adds m a es
  Adds-eq e h = rw e h

pub Adds-emit : (e : Event) → Adds (emit e) tt (e ∷ [])
unfolding ◌>>=◌
Adds-emit e = record { at = λ w. (w.calls, refl) }

module _ {A B : Type 0} where
  pub Adds-bind :
      (m : Exec A) (f : A → Exec B) (a : A) {b : B} {es fs : List Event}
      → Adds m a es
      → Adds (f a) b fs
      → Adds (m >>= f) b (fs ++ es)
  unfolding ◌>>=◌
  Adds-bind m f a {b} {es} {fs} hm hf = record {
    at = λ w.
        let (k, e) = hm.at w in
        let (k', e') = hf.at (record { calls = k; trace = es ++ w.trace }) in
        (
          k',
          ap (and_then f) e
              ∙ e'
              ∙ ap (λ t. (done b, record { calls = k'; trace = t }))
                  (sym (append_assoc fs es w.trace)),
        );
  }

  -- The same after a run that only asks.
  pub Adds-after :
      (m : Exec A) (f : A → Exec B) (a : A) {b : B} {fs : List Event}
      → Adds m a []
      → Adds (f a) b fs
      → Adds (m >>= f) b fs
  unfolding ◌>>=◌
  Adds-after m f a {b} {fs} hm hf = record {
    at = λ w.
        let (k, e) = hm.at w in
        let (k', e') = hf.at (record { calls = k; trace = w.trace }) in
        (k', ap (and_then f) e ∙ e');
  }

module _ {A : Type 0} where
  -- A conditional, whose branches may use the test.
  pub Adds-when :
      (b : Bool) {m n : Exec A} {a : A} {es fs : List Event}
      → (b ≡ true → Adds m a es)
      → (b ≡ false → Adds n a fs)
      → Adds (if b then m else n) a (if b then es else fs)
  Adds-when true hm hn = hm refl
  Adds-when false hm hn = hn refl

  -- A guard before a run that would do nothing where the guard fails.
  pub Adds-guard :
      (b : Bool) {m : Exec A} {a : A} {es : List Event}
      → Adds m a es
      → (b ≡ false → es ≡ [])
      → Adds (if b then m else pure a) a es
  Adds-guard true hm hn = hm
  Adds-guard false {a = a} hm hn = rw (hn refl) (Adds-pure a)

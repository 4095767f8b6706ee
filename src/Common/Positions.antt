-- ===== src/Common/Positions.antt =====
-- Tests of all or of some bit positions below a bound.
use platform_event_filter.Common.Tests.{Bool-cases}
use platform_event_filter.Common.Words.{
  ℕ, zero, suc, ◌<◌, ◌≡◌, refl, Bool, true, false, ◌&&◌, ◌||◌, inl, inr, arith,
}

pub Bool-ext : (a b : Bool) → (a ≡ true → b ≡ true) → (b ≡ true → a ≡ true) → a ≡ b
Bool-ext true b f g = ground (arith, f refl)
Bool-ext false true f g = g refl
Bool-ext false false f g = refl

unfoldable pub all_below : ℕ → (ℕ → Bool) → Bool
all_below zero p = true
all_below (suc n) p = p n && all_below n p

unfoldable pub any_below : ℕ → (ℕ → Bool) → Bool
any_below zero p = false
any_below (suc n) p = p n || any_below n p

module _ (p : ℕ → Bool) where
  pub all_below_sound : (n k : ℕ) → all_below n p ≡ true → k < n → p k ≡ true
  unfolding all_below
  all_below_sound zero k h l = absurd (omega arith)
  all_below_sound (suc n) k h l = ground (arith, all_below_sound n k)

  pub all_below_complete : (n : ℕ) → ((k : ℕ) → k < n → p k ≡ true) → all_below n p ≡ true
  unfolding all_below
  all_below_complete zero h = refl
  all_below_complete (suc n) h =
      rw (h n (omega arith)) (all_below_complete n (λ k l. h k (omega arith)))

  pub any_below_sound : (n : ℕ) → any_below n p ≡ true → (k : ℕ) × (k < n) × (p k ≡ true)
  unfolding any_below
  any_below_sound zero h = cc
  any_below_sound (suc n) h = elim (Bool-cases (p n)) [
    | inl e ↦ (n, omega arith, e)
    | inr e ↦ let (k, l, e') = any_below_sound n (ground arith) in (k, omega arith, e')
  ]

  pub any_below_complete : (n k : ℕ) → k < n → p k ≡ true → any_below n p ≡ true
  unfolding any_below
  any_below_complete zero k l h = absurd (omega arith)
  any_below_complete (suc n) k l h = ground (arith, any_below_complete n k)

  pub any_below_none : (n : ℕ) → ((k : ℕ) → k < n → p k ≡ false) → any_below n p ≡ false
  unfolding any_below
  any_below_none zero h = refl
  any_below_none (suc n) h = rw (h n (omega arith)) (any_below_none n (λ k l. h k (omega arith)))

pub any_below-or :
    (p q r : ℕ → Bool)
    → ((k : ℕ) → r k ≡ (p k || q k))
    → (n : ℕ) → any_below n r ≡ (any_below n p || any_below n q)
unfolding any_below
any_below-or p q r h zero = refl
any_below-or p q r h (suc n) = ground (arith, h n, any_below-or p q r h n)

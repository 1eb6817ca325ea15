-- ===== src/Bench/Act/Inversion.antt =====
-- What is known of the parts of a call from how the whole has ended.
use real_time_data_pipeline.Base.{◌≡◌, refl, ap}
use real_time_data_pipeline.Base.Errors.{Outcome, returned, raised}
use real_time_data_pipeline.Bench.Act.{Act, after, finished}

module _ {S : Type 0} where
  pub after-returned {ℓ κ} :
      {A : Type ℓ} {B : Type κ} (m : Outcome A × S) (f : A → Act S B) (a : A)
      → m.0 ≡ returned a
      → after m f ≡ f a m.1
  after-returned (o, s) f a h = ap (λ (q : Outcome _). after (q, s) f) h

  pub after-eq-returned {ℓ κ} :
      {A : Type ℓ} {B : Type κ} (m : Outcome A × S) (f : A → Act S B) {b : B} {s' : S}
      → after m f ≡ (returned b, s')
      → (a : A) × (s1 : S) × (m ≡ (returned a, s1)) × (f a s1 ≡ (returned b, s'))
  after-eq-returned (returned a, s) f h = (a, s, refl, h)
  after-eq-returned (raised e, s) f h = cc

  pub finished-eq-returned {ℓ} :
      {A : Type ℓ} (o : Outcome A) (m : Outcome (Unit {0}) × S) {a : A} {s' : S}
      → finished o m ≡ (returned a, s')
      → (o ≡ returned a) × (m.1 ≡ s')
  finished-eq-returned o (returned u, s) h = (ap (λ p. p.0) h, ap (λ p. p.1) h)
  finished-eq-returned o (raised e, s) h = cc

  pub finished-returned {ℓ} :
      {A : Type ℓ} (o : Outcome A) (m : Outcome (Unit {0}) × S)
      → m.0 ≡ returned tt
      → finished o m ≡ (o, m.1)
  finished-returned o (n, s) h = ap (λ (q : Outcome (Unit {0})). finished o (q, s)) h

  -- What of a state no part of a call changes, the call does not change.
  pub after-keeps {ℓ κ ι} :
      {A : Type ℓ} {B : Type κ} {X : Type ι} (g : S → X) (m : Outcome A × S) (f : A → Act S B)
      → ((a : A) (s : S) → g (f a s).1 ≡ g s)
      → g (after m f).1 ≡ g m.1
  after-keeps g (returned a, s) f h = h a s
  after-keeps g (raised e, s) f h = refl

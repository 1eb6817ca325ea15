-- ===== src/Bench/Act/Sound.antt =====
-- What holds of whatever a call returns, through its binds and loops; an exception returns nothing.
use real_time_data_pipeline.Base.{ℕ, zero, suc, Option, none, some, ltb, if_elim}
use real_time_data_pipeline.Base.Errors.{Outcome, returned, raised}
use real_time_data_pipeline.Bench.Act.{
  Act, after, Turn, done, again, Ended, found, timed_out, turned, poll_loop,
}

abbrev pub Returns {ℓ κ} : {A : Type ℓ} → (A → Type κ) → Outcome A → Type κ
Returns P (returned a) = P a
Returns P (raised e) = Unit

pub Returns-any {ℓ} : {A : Type ℓ} (m : Outcome A) → Returns (λ _. Unit {0}) m
Returns-any (returned a) = tt
Returns-any (raised e) = tt

pub Returns-weaken {ℓ κ ι} :
    {A : Type ℓ} (P : A → Type κ) (Q : A → Type ι) (m : Outcome A)
    → ((a : A) → P a → Q a)
    → Returns P m
    → Returns Q m
Returns-weaken P Q (returned a) f h = f a h
Returns-weaken P Q (raised e) f h = tt

module _ {S : Type 0} where
  pub after-Returns {ℓ κ ι υ} :
      {A : Type ℓ} {B : Type κ} (P : A → Type ι) (Q : B → Type υ) (m : Outcome A × S)
      (f : A → Act S B)
      → Returns P m.0
      → ((a : A) (s : S) → P a → Returns Q (f a s).0)
      → Returns Q (after m f).0
  after-Returns P Q (returned a, s) f h k = k a s h
  after-Returns P Q (raised e, s) f h k = tt

module _ {S : Type 0} (now : S → ℕ × S) (sleep : ℕ → S → S) {A B : Type 0} (P : B → Type 0) where
  -- A turn, and a loop, that finds only what it should.
  abbrev pub IsSoundTurn : Turn A B → Type 0
  IsSoundTurn (done b) = P b
  IsSoundTurn (again a) = Unit

  abbrev pub IsSoundEnd : Ended A B → Type 0
  IsSoundEnd (found b) = P b
  IsSoundEnd (timed_out a) = Unit

  abbrev pub IsSoundLoop : Option (Outcome (Ended A B) × S) → Type 0
  IsSoundLoop none = Unit
  IsSoundLoop (some r) = Returns IsSoundEnd r.0

  turned_sound :
      (pause : ℕ) (rest : A → S → Option (Outcome (Ended A B) × S)) (o : Outcome (Turn A B)) (s : S)
      → Returns IsSoundTurn o
      → ((a : A) (s : S) → IsSoundLoop (rest a s))
      → IsSoundLoop (turned now sleep pause rest (o, s))
  turned_sound pause rest (returned (done b)) s h k = h
  turned_sound pause rest (returned (again a)) s h k = k a (sleep pause s)
  turned_sound pause rest (raised e) s h k = tt

  pub poll_loop_sound :
      (fuel pause deadline : ℕ) (body : A → Act S (Turn A B)) (a : A) (s : S)
      → ((a : A) (s : S) → Returns IsSoundTurn (body a s).0)
      → IsSoundLoop (poll_loop now sleep fuel pause deadline body a s)
  unfolding poll_loop
  poll_loop_sound zero pause deadline body a s h = tt
  poll_loop_sound (suc fuel) pause deadline body a s h =
      if_elim IsSoundLoop (ltb (now s).0 deadline)
        (turned now sleep pause (poll_loop now sleep fuel pause deadline body) (body a (now s).1))
        (some (returned (timed_out a), (now s).1))
        (λ _.
          turned_sound pause (poll_loop now sleep fuel pause deadline body) (body a (now s).1).0
            (body a (now s).1).1 (h a (now s).1)
            (λ a' u. poll_loop_sound fuel pause deadline body a' u h))
        (λ _. tt)

-- ===== src/Bench/Act.antt =====
-- Calls that change a state and may raise, for the methods of bench/run_scenario.py, and the loop that
-- polls until a deadline, which it has four times.
pub mod Progress
pub mod Sound
pub mod Inversion
use real_time_data_pipeline.Base.{
  ℕ, zero, suc, ◌+◌, ◌*◌, ◌≤◌, ◌≡◌, refl, ltb, Bool, true, false, Option, none, some, List, [], ◌∷◌,
  arith, if◌then◌else◌, Bool-cases, inl, inr, ◌<◌, ltb→lt,
}
use real_time_data_pipeline.Base.Errors.{Exc, Outcome, returned, raised}

abbrev pub Act {ℓ} : Type 0 → Type ℓ → Type ℓ
Act S A = S → Outcome A × S

abbrev pub over {ℓ κ} : {A : Type ℓ} {B : Type κ} → (A → B) → Outcome A → Outcome B
over f (returned a) = returned (f a)
over f (raised e) = raised e

module _ {S : Type 0} where
  abbrev pub pure {ℓ} : {A : Type ℓ} → A → Act S A
  pure a s = (returned a, s)

  abbrev pub lift {ℓ} : {A : Type ℓ} → Outcome A → Act S A
  lift o s = (o, s)

  abbrev pub after {ℓ κ} : {A : Type ℓ} {B : Type κ} → Outcome A × S → (A → Act S B) → Outcome B × S
  after (returned a, s) f = f a s
  after (raised e, s) f = (raised e, s)

  infixl 5 ◌>>=◌ ◌>>◌
  abbrev pub ◌>>=◌ {ℓ κ} : {A : Type ℓ} {B : Type κ} → Act S A → (A → Act S B) → Act S B
  (m >>= f) s = after (m s) f

  abbrev pub ◌>>◌ {ℓ} : {B : Type ℓ} → Act S (Unit {0}) → Act S B → Act S B
  (m >> k) s = after (m s) (λ _. k)

  pub after-pure {ℓ κ} :
      {A : Type ℓ} {B : Type κ} (m : Outcome A × S) (f : A → B)
      → (after m (λ a. pure (f a))).0 ≡ over f m.0
  after-pure (returned a, s) f = refl
  after-pure (raised e, s) f = refl

  -- The two ends of a `try` with its handler.
  abbrev pub caught {ℓ} : {A : Type ℓ} → Outcome A × S → (Exc → Act S A) → Outcome A × S
  caught (returned a, s) h = (returned a, s)
  caught (raised e, s) h = h e s

  abbrev pub except {ℓ} : {A : Type ℓ} → Act S A → (Exc → Act S A) → Act S A
  except m h s = caught (m s) h

  -- `try: … finally: …`, where the exception of the last block, if any, wins.
  abbrev pub finished {ℓ} : {A : Type ℓ} → Outcome A → Outcome (Unit {0}) × S → Outcome A × S
  finished o (returned _, s) = (o, s)
  finished o (raised e, s) = (raised e, s)

  abbrev pub finally {ℓ} : {A : Type ℓ} → Act S A → Act S (Unit {0}) → Act S A
  finally m k s = let (o, s1) = m s in finished o (k s1)

-- What a turn of a loop comes to: the loop returns, or it goes on with its variables changed.
pub data Turn (A B : Type 0) : Type 0 where
  done : B → Turn A B
  again : A → Turn A B

-- How a loop ends: with the result of a turn, or at its deadline with its variables.
pub data Ended (A B : Type 0) : Type 0 where
  found : B → Ended A B
  timed_out : A → Ended A B

fuel_left :
    (fuel pause deadline t : ℕ) → t < deadline → deadline + pause ≤ t + suc fuel * pause → 1 ≤ fuel
fuel_left zero pause deadline t lt k = absurd (omega (arith, lt, k))
fuel_left (suc fuel) pause deadline t lt k = omega arith

module _ {S : Type 0} (now : S → ℕ × S) (sleep : ℕ → S → S) {A B : Type 0} where
  -- The rest of a turn, with the turns to come.
  abbrev pub turned :
      ℕ
      → (A → S → Option (Outcome (Ended A B) × S))
      → Outcome (Turn A B) × S
      → Option (Outcome (Ended A B) × S)
  turned pause rest (returned (done b), s) = some (returned (found b), s)
  turned pause rest (returned (again a), s) = rest a (sleep pause s)
  turned pause rest (raised e, s) = some (raised e, s)

  -- `while time.time() < deadline: …; time.sleep(pause)`. It is `none` when the fuel is used up.
  unfoldable pub poll_loop :
      ℕ → ℕ → ℕ → (A → Act S (Turn A B)) → A → S → Option (Outcome (Ended A B) × S)
  poll_loop zero pause deadline body a s = none
  poll_loop (suc fuel) pause deadline body a s =
      let (t, s1) = now s in
      let rest = poll_loop fuel pause deadline body in
      if ltb t deadline then turned pause rest (body a s1) else some (returned (timed_out a), s1)

  -- A clock that tells a time which no call turns back, and which a sleep brings forward.
  pub record IsSteady (time : S → ℕ) (body : A → Act S (Turn A B)) : Type 0 where
    pub tells : (s : S) → (now s).0 ≡ time s
    pub goes_on : (s : S) → time s ≤ time (now s).1
    pub stays : (a : A) (s : S) → time s ≤ time (body a s).1
    pub sleeps : (n : ℕ) (s : S) → time s + n ≤ time (sleep n s)

  turned-some :
      (pause : ℕ) (rest : A → S → Option (Outcome (Ended A B) × S)) (o : Outcome (Turn A B)) (s : S)
      → ((a : A) → (r : Outcome (Ended A B) × S) × (rest a (sleep pause s) ≡ some r))
      → (r : Outcome (Ended A B) × S) × (turned pause rest (o, s) ≡ some r)
  turned-some pause rest (returned (done b)) s h = (_, refl)
  turned-some pause rest (returned (again a)) s h = h a
  turned-some pause rest (raised e) s h = (_, refl)

  -- The loop ends: a turn takes at least the pause, so that fuel for one turn more than fit before the
  -- deadline is enough.
  pub poll_loop-some :
      (fuel pause deadline : ℕ) (body : A → Act S (Turn A B)) (time : S → ℕ) (a : A) (s : S)
      → IsSteady time body
      → 1 ≤ fuel
      → deadline + pause ≤ time s + fuel * pause
      → 1 ≤ pause
      → (r : Outcome (Ended A B) × S) × (poll_loop fuel pause deadline body a s ≡ some r)
  unfolding poll_loop
  poll_loop-some zero pause deadline body time a s h one k p = absurd (omega (arith, one))
  poll_loop-some (suc fuel) pause deadline body time a s h one k p =
      let t = (now s).0 in
      let s2 = (body a (now s).1).1 in
      elim (Bool-cases (ltb t deadline)) [
        | inl e ↦
            let lt = ltb→lt t deadline e in
            rw e (
              turned-some pause (poll_loop fuel pause deadline body) (body a (now s).1).0 s2 (λ a'.
                poll_loop-some fuel pause deadline body time a' (sleep pause s2) h
                  (fuel_left fuel pause deadline (time s) (omega (arith, lt, h.tells s)) k)
                  (omega (arith, k, h.sleeps pause s2, h.stays a (now s).1, h.goes_on s)) p))
        | inr e ↦ rw e (_, refl)
      ]

-- ===== src/Bench/Act/Progress.antt =====
-- Loops that find what they wait for before their deadline.
use real_time_data_pipeline.Base.{
  ℕ, zero, suc, ◌≡◌, refl, ◌+◌, ◌*◌, mul_mono, ◌≤◌, ◌<◌, true, Option, some, ltb, arith,
}
use real_time_data_pipeline.Base.Errors.{Outcome, returned, raised}
use real_time_data_pipeline.Bench.Act.{Act, Turn, done, again, Ended, found, turned, poll_loop}

in_time : (t u deadline : ℕ) → t ≡ u → u < deadline → ltb t deadline ≡ true
in_time t u deadline e lt = ground (arith, e, lt)

module _ {S : Type 0} (now : S → ℕ × S) (sleep : ℕ → S → S) {A B : Type 0} where
  -- A turn finds what it looks for, or brings the loop nearer to it.
  abbrev pub Advances : (A → ℕ) → (B → Type 0) → Outcome (Turn A B) → ℕ → Type 0
  Advances left P (returned (done b)) n = P b
  Advances left P (returned (again a)) n = left a < n
  Advances left P (raised e) n = ⊥

  -- On some states that no turn leaves, a clock tells a time, of which a turn with its pause takes at
  -- most so much, and every turn advances.
  pub record IsBrisk (On : S → Type 0) (time : S → ℕ) (pause cost : ℕ) (body : A → Act S (Turn A B))
      (left : A → ℕ) (P : B → Type 0) : Type 0 where
    pub tells : (s : S) → On s → (now s).0 ≡ time s
    pub takes : (a : A) (s : S) → On s → time (sleep pause (body a (now s).1).1) ≤ time s + cost
    pub advances : (a : A) (s : S) → On s → Advances left P (body a (now s).1).0 (left a)
    pub stays_on : (a : A) (s : S) → On s → On (sleep pause (body a (now s).1).1)

  abbrev Finds : (B → Type 0) → Option (Outcome (Ended A B) × S) → Type 0
  Finds P o = (b : B) × (s : S) × (o ≡ some (returned (found b), s)) × P b

  turned_found :
      (pause n : ℕ) (left : A → ℕ) (P : B → Type 0)
      (rest : A → S → Option (Outcome (Ended A B) × S)) (o : Outcome (Turn A B)) (s : S)
      → Advances left P o n
      → ((a : A) → left a < n → Finds P (rest a (sleep pause s)))
      → Finds P (turned now sleep pause rest (o, s))
  turned_found pause n left P rest (returned (done b)) s k f = (b, s, refl, k)
  turned_found pause n left P rest (returned (again a)) s k f = f a k
  turned_found pause n left P rest (raised e) s k f = absurd k

  -- A loop that is nearer to its end by every turn finds it, when its fuel and the time to its deadline
  -- are enough for the turns that are left.
  pub poll_loop_found :
      (fuel pause deadline cost : ℕ) (body : A → Act S (Turn A B)) (On : S → Type 0) (time : S → ℕ)
      (left : A → ℕ) (P : B → Type 0) (a : A) (s : S)
      → On s
      → IsBrisk On time pause cost body left P
      → left a < fuel
      → time s + left a * cost < deadline
      → Finds P (poll_loop now sleep fuel pause deadline body a s)
  unfolding poll_loop
  poll_loop_found zero pause deadline cost body On time left P a s on h f d =
      absurd (omega (arith, f))
  poll_loop_found (suc fuel) pause deadline cost body On time left P a s on h f d =
      rw (in_time (now s).0 (time s) deadline (h.tells s on) (omega (arith, d))) (
        turned_found pause (left a) left P (poll_loop now sleep fuel pause deadline body)
          (body a (now s).1).0 (body a (now s).1).1 (h.advances a s on)
          (λ a' k.
            poll_loop_found fuel pause deadline cost body On time left P a'
              (sleep pause (body a (now s).1).1) (h.stays_on a s on) h (omega (arith, f, k))
              (omega (arith, d, h.takes a s on, mul_mono cost (suc (left a')) (left a) k))))

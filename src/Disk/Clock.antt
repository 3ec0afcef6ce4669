-- ===== src/Disk/Clock.antt =====
-- kernel/drivers/Disk.c: the polling loops end, since the clock of PIT.c runs.
use skhuos.Common.{
  ℕ, zero, suc, ◌<◌, ◌≡◌, refl, ap, ◌∙◌, Bool, true, false, Option, none, some, inl, inr, arith,
  Option-cases, Bool-cases,
}
use skhuos.Machine.{Machine}
use skhuos.Pit.{Stopwatch}
use skhuos.Disk.{Driver, Run, ◌>>=◌, branch, pure, access}
use skhuos.Disk.Wait.{poll, in_time, advance_watch, latched_counter}
use skhuos.Disk.Count.{Ends}

returned :
    {H A : Type 0} (P : A → Driver H → Type 0) (o : Option (A × Driver H)) → Ends P o → o ≡ none → ⊥
returned P none e h = e
returned P (some (a, s)) e h = ground arith

bind-some :
    {H A B : Type 0} (r : Run H A) (f : A → Run H B) (s : Driver H) (a : A) (s' : Driver H)
    → r s ≡ some (a, s')
    → (r >>= f) s ≡ f a s'
bind-some r f s a s' e = ap (λ o. elim o [ none ↦ none | some (a, s') ↦ f a s' ]) e

module _ {H : Type 0} (m : Machine H) where
  -- Reading the clock always returns.
  advance_watch_returns :
      (watch : Stopwatch) (s : Driver H)
      → (w : Stopwatch) × (s' : Driver H) × (advance_watch m watch s ≡ some (w, s'))
  unfolding latched_counter access
  advance_watch_returns watch s = (_, _, refl)

  -- A round with an answer, and one without.
  poll-found :
      (test : Run H (Option Bool)) (limit k : ℕ) (watch : Stopwatch) (b : Bool) (s s₁ : Driver H)
      → test s ≡ some (some b, s₁)
      → poll m (suc k) test limit watch s ≡ some (b, s₁)
  unfolding poll
  poll-found test limit k watch b s s₁ found = bind-some test _ s (some b) s₁ found

  poll-missed :
      (test : Run H (Option Bool)) (limit k : ℕ) (watch w : Stopwatch) (s s₁ s₂ : Driver H)
      → test s ≡ some (none, s₁)
      → advance_watch m watch s₁ ≡ some (w, s₂)
      → poll m (suc k) test limit watch s
        ≡ branch (in_time m w limit) (poll m k test limit w) (pure false) s₂
  unfolding poll
  poll-missed test limit k watch w s s₁ s₂ missed read =
      bind-some test _ s none s₁ missed ∙ bind-some (advance_watch m watch) _ s₁ w s₂ read

  -- `do { … } while(getElapsedClock(&watch) < limit)` ends, if its test does, and if each round without an
  -- answer that is in time brings the clock nearer to the limit, by the measure `left`: then it takes no more
  -- rounds than the measure says, and one.
  pub poll-Ends :
      (test : Run H (Option Bool)) (limit : ℕ) (left : Stopwatch → Driver H → ℕ)
      → ((s : Driver H) → Ends (λ found s'. Unit {0}) (test s))
      → ((watch w : Stopwatch) (s s₁ s₂ : Driver H)
          → test s ≡ some (none, s₁)
          → advance_watch m watch s₁ ≡ some (w, s₂)
          → in_time m w limit ≡ true
          → left w s₂ < left watch s)
      → (k : ℕ) (watch : Stopwatch) (s : Driver H) → left watch s < k
      → Ends (λ b s'. Unit {0}) (poll m k test limit watch s)
  poll-Ends test limit left ends nearer zero watch s enough = absurd (omega arith)
  poll-Ends test limit left ends nearer (suc k) watch s enough = elim (Option-cases (test s)) [
    | inl nothing ↦ absurd (returned (λ found s'. Unit {0}) (test s) (ends s) nothing)
    | inr ((some b, s₁), found) ↦ rw (poll-found test limit k watch b s s₁ found) tt
    | inr ((none, s₁), missed) ↦
        let (w, s₂, read) = advance_watch_returns watch s₁ in
        elim (Bool-cases (in_time m w limit)) [
          | inl early ↦
              rw (poll-missed test limit k watch w s s₁ s₂ missed read, early)
                (poll-Ends test limit left ends nearer k w s₂
                  (omega (arith, nearer watch w s s₁ s₂ missed read early)))
          | inr late ↦ rw (poll-missed test limit k watch w s s₁ s₂ missed read, late) tt
        ]
  ]

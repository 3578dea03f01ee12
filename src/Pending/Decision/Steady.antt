-- ===== src/Pending/Decision/Steady.antt =====
-- The guard of `decideAggregateLevel` against switching to and fro:
-- cdmp-mini/internal/pkg/usercache/pending_state_machine.go.
use mathlib.Core.Path.{subst}
use cdmp_mini.Base.{
  Bool, leb, not, ◌&&◌, sym, ◌∙◌, if◌then◌else◌, ◌==◌, ℕ, ◌-◌, ◌≤◌, ◌<◌, ◌≡◌, ◌≢◌, ◌⊎◌, inl, inr,
  refl, List, ◌∷◌, Bool-cases, true, false, arith,
}
use cdmp_mini.Pending.Level.{Level}
use cdmp_mini.Pending.Decision.{Decider, same_level, settled, steady_level}

-- The samples so far, the latest first: `level` has been sampled ever since the time `since`, when it
-- was sampled, without another level between.
pub data Streak (level : Level) (since : ℕ) : List (Level × ℕ) → Type 0 where
  begins : (earlier : List (Level × ℕ)) → Streak level since ((level, since) ∷ earlier)
  continues :
      (now : ℕ) (earlier : List (Level × ℕ))
      → Streak level since earlier
      → Streak level since ((level, now) ∷ earlier)

-- A level that waits to be taken over has been sampled ever since.
pub record IsTracking (c : Decider) (samples : List (Level × ℕ)) : Type 0 where
  pub streak : c.pending_level ≢ Level.unset → Streak c.pending_level c.pending_since samples

-- What one decision returns beside the level before it.
abbrev pub Switch : Decider → Level → ℕ → List (Level × ℕ) → Level → Type 0
Switch c level now samples returned =
    (returned ≡ c.last_level)
    ⊎ (c.last_level ≡ Level.unset)
    ⊎ ((since : ℕ) × (returned ≡ level)
        × Streak level since ((level, now) ∷ samples)
        × (c.anti_shake_interval ≤ now - since))

same_level_eq : (a b : Level) → same_level a b ≡ true → a ≡ b
same_level_eq a b h = ground arith

settled-IsTracking :
    (c : Decider) (level : Level) (now : ℕ) (samples : List (Level × ℕ))
    → IsTracking (settled c level now) ((level, now) ∷ samples)
settled-IsTracking c level now samples = record { streak = λ h. absurd (h refl) }

waited :
    (c : Decider) (level : Level) (samples : List (Level × ℕ))
    → level ≢ Level.unset
    → IsTracking c samples
    → same_level c.pending_level level ≡ true
    → (c.pending_level ≡ level) × Streak level c.pending_since samples
waited c level samples known t e =
    let same : c.pending_level ≡ level = same_level_eq c.pending_level level e in
    (
      same,
      subst (λ l. Streak l c.pending_since samples) same (t.streak (λ u. known (sym same ∙ u))),
    )

-- The last test of the guard.
abbrev is_due : Decider → ℕ → Bool
is_due c now = not (c.pending_since == 0) && leb c.anti_shake_interval (now - c.pending_since)

waiting_Switch :
    (c : Decider) (level : Level) (now : ℕ) (samples : List (Level × ℕ))
    → (c.pending_level ≡ level) × Streak level c.pending_since samples
    → let choice : Level × Decider =
        if is_due c now then (level, settled c level now) else (c.last_level, c) in
      let (returned, c') = choice in
      (returned ≡ c'.last_level)
      × IsTracking c' ((level, now) ∷ samples)
      × Switch c level now samples returned
waiting_Switch c level now samples (same, streak) = elim (Bool-cases (is_due c now)) [
  | inl due ↦ rw due (
    refl,
    settled-IsTracking c level now samples,
    inr (inr (c.pending_since, refl, continues now samples streak, ground arith)),
  )
  | inr early ↦ rw early (
    refl,
    record {
      streak = λ h.
          subst (λ l. Streak l c.pending_since ((level, now) ∷ samples)) (sym same)
            (continues now samples streak);
    },
    inl refl,
  )
]

-- With a positive interval, a sampled level that is set, and a state that tracks the samples
-- before, a decision returns the level that it takes over, and that is the level before it, unless
-- there was none, or unless the sampled level has been sampled without interruption for at least
-- the interval; and the state afterwards tracks the samples too: a level that waits has been
-- sampled without interruption since it began to wait.
pub steady_level-Switch :
    (c : Decider) (level : Level) (now : ℕ) (samples : List (Level × ℕ))
    → 0 < c.anti_shake_interval
    → level ≢ Level.unset
    → IsTracking c samples
    → let (returned, c') = steady_level c level now in
      (returned ≡ c'.last_level)
      × IsTracking c' ((level, now) ∷ samples)
      × Switch c level now samples returned
unfolding steady_level
steady_level-Switch c level now samples pos known t =
    let guarded : (c.anti_shake_interval == 0) ≡ false = ground arith in
    rw guarded (elim (Bool-cases (same_level c.last_level Level.unset)) [
      | inl first ↦
          rw first
            (refl, settled-IsTracking c level now samples, inr (inl (same_level_eq _ _ first)))
      | inr later ↦ rw later (elim (Bool-cases (same_level level c.last_level)) [
        | inl same ↦
            rw same (refl, settled-IsTracking c level now samples, inl (same_level_eq _ _ same))
        | inr change ↦ rw change (elim (Bool-cases (same_level c.pending_level level)) [
          | inl waiting ↦
              rw waiting
                (waiting_Switch c level now samples (waited c level samples known t waiting))
          | inr fresh ↦ rw fresh (refl, record { streak = λ h. begins samples }, inl refl)
        ])
      ])
    ])

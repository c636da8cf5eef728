-- ===== src/Crawl/Frontier/Workers/Progress.antt =====
-- The crawl of pkg/crawl/engine.go does not hang: a worker can step until all have gone.
use vespasian.Prelude.{
  ℕ, suc, ◌<◌, some, List, [], ◌∷◌, ◌++◌, ◌≡◌, ◌⊎◌, inl, inr, refl, sym, arith, All, append_assoc,
  Bool-cases,
}
use vespasian.Crawl.Frontier.{pop, UrlLibrary, Signal, silent}
use vespasian.Crawl.Frontier.Workers.{
  Phase, ready, cleared, take_entry, after_pop, sleeping, taken, visiting, visited, exhausted, left,
  Crawl, Move, leave, reserve, fail, finish, move, step_at, Reachable, idle_then, heed,
  page_budget_reached,
}
use vespasian.Crawl.Frontier.Workers.Counts.{holds, sleeps, count}
use vespasian.Crawl.Frontier.Workers.Wakeups.{no_lost_wakeup}

abbrev pub HasGone : Phase → Type 0
HasGone exhausted = Unit
HasGone left = Unit
HasGone _ = ⊥

holds_gone : (w : Phase) → HasGone w → holds w ≡ 0
holds_gone exhausted g = refl
holds_gone left g = refl
holds_gone _ g = absurd g

module _ (lib : UrlLibrary) (max_pages : ℕ) (c : Crawl) where
  -- A step of one of the workers.
  abbrev pub CanStep : List Phase → Type 0
  CanStep ws =
      (x : Move) × (before after vs : List Phase) × (d : Crawl) × (ws ≡ before ++ after)
      × (step_at lib max_pages x before after c ≡ some (vs, d))

  phase-cases :
      (w : Phase)
      → (HasGone w ⊎ (w ≡ sleeping))
        ⊎ ((x : Move) × (v : Phase) × (d : Crawl) × (signal : Signal) × (move lib max_pages x w c
              ≡ some (v, d, signal)))
  unfolding move
  phase-cases ready = inr (leave, left, c, silent, refl)
  phase-cases cleared =
      let (v, d, signal) = after_pop c (pop c.frontier) in inr (take_entry, v, d, signal, refl)
  phase-cases sleeping = inl (inr refl)
  phase-cases (taken e) = elim (Bool-cases (page_budget_reached max_pages c.page_count)) [
    | inl k ↦ let (v, d, signal) = idle_then left c in inr (reserve, v, d, signal, rw k refl)
    | inr k ↦
        inr (reserve, visiting e, record c { page_count = suc c.page_count }, silent, rw k refl)
  ]
  phase-cases (visiting e) =
      let (v, d, signal) = idle_then ready c in inr (fail, v, d, signal, refl)
  phase-cases (visited e) =
      let (v, d, signal) = idle_then ready c in inr (finish, v, d, signal, refl)
  phase-cases exhausted = inl (inl tt)
  phase-cases left = inl (inl tt)

  step_of-move :
      (x : Move) (before after : List Phase) (w v : Phase) (d : Crawl) (signal : Signal)
      → move lib max_pages x w c ≡ some (v, d, signal)
      → CanStep (before ++ w ∷ after)
  unfolding step_at
  step_of-move x before after w v d signal e =
      (x, before, w ∷ after, heed signal (before ++ v ∷ after), d, refl, rw (step_at, e) refl)

  rest_cases :
      (before ws : List Phase) (w : Phase)
      → HasGone w ⊎ (w ≡ sleeping)
      → CanStep ((before ++ w ∷ []) ++ ws)
        ⊎ (count holds ws ≡ 0) × (All HasGone ws ⊎ (0 < count sleeps ws))
      → CanStep (before ++ w ∷ ws)
        ⊎ (count holds (w ∷ ws) ≡ 0) × (All HasGone (w ∷ ws) ⊎ (0 < count sleeps (w ∷ ws)))
  rest_cases before ws w k (inl s) = inl (rw (sym (append_assoc before (w ∷ []) ws)) s)
  rest_cases before ws w (inl g) (inr (h, inl gone)) =
      inr (omega (arith, holds_gone w g), inl (g, gone))
  rest_cases before ws w (inl g) (inr (h, inr s)) =
      inr (omega (arith, holds_gone w g), inr (omega arith))
  rest_cases before ws w (inr e) (inr (h, _)) = inr (rw e (omega arith), inr (rw e (omega arith)))

  -- Without a step, no worker holds an entry, and all have gone or one waits.
  step-cases :
      (before ws : List Phase)
      → CanStep (before ++ ws) ⊎ (count holds ws ≡ 0) × (All HasGone ws ⊎ (0 < count sleeps ws))
  step-cases before [] = inr (refl, inl tt)
  step-cases before (w ∷ ws) = elim (phase-cases w) [
    | inr (x, v, d, signal, e) ↦ inl (step_of-move x before ws w v d signal e)
    | inl k ↦ rest_cases before ws w k (step-cases (before ++ w ∷ []) ws)
  ]

  -- Until all workers have gone, one of them has a step, in whatever order the steps so far came.
  pub never_hangs : (ws : List Phase) → Reachable lib max_pages c ws → All HasGone ws ⊎ CanStep ws
  never_hangs ws r = elim (step-cases [] ws) [
    | inl k ↦ inr k
    | inr (h, inl gone) ↦ inl gone
    | inr (h, inr s) ↦ ground (arith, no_lost_wakeup lib max_pages c ws r s)
  ]

-- ===== src/Crawl/Frontier/Workers/Visits.antt =====
-- Which entries the workers of pkg/crawl/engine.go are handed.
use vespasian.Prelude.{
  ℕ, ◌+◌, ◌≤◌, ◌<◌, true, false, Option, none, some, List, [], ◌∷◌, ◌++◌, ◌≡◌, inl, inr, refl,
  subst, arith, Bytes, All, Bool-cases,
}
use vespasian.Prelude.Parts.{contains}
use vespasian.Crawl.Frontier.{UrlLibrary, Signal, pop, new_url_frontier}
use vespasian.Crawl.Frontier.Push.{Admissible, occurrences}
use vespasian.Crawl.Frontier.Workers.{
  Phase, ready, cleared, check, taken, visiting, visited, Crawl, Move, leave, take_entry, reserve,
  find, fail, abort, finish, move, step_at, page_budget_reached, Reachable, links_entries, start,
  step, closing,
}
use vespasian.Crawl.Frontier.Workers.Counts.{count, is_exhausted}
use vespasian.Crawl.Frontier.Workers.Wakeups.{step_at-move, exhausted_lem}
use vespasian.Crawl.Frontier.Workers.Once.{
  CrawlOnce, push-IsOnce, after_pop-IsOnce, idle-IsOnce, close-IsOnce,
}

module _ (lib : UrlLibrary) where
  abbrev AfterMove : Option (Phase × Crawl × Signal) → Type 0
  AfterMove none = Unit
  AfterMove (some (v, d, signal)) = CrawlOnce lib d

  move-IsOnce :
      (max_pages : ℕ) (a : Move) (w : Phase) (c : Crawl)
      → CrawlOnce lib c
      → AfterMove (move lib max_pages a w c)
  unfolding move
  move-IsOnce m leave ready c i = i
  move-IsOnce m check ready c i = i
  move-IsOnce m take_entry cleared c i = after_pop-IsOnce lib c (pop c.frontier) refl i
  move-IsOnce m reserve (taken u) c i = elim (Bool-cases (page_budget_reached m c.page_count)) [
    | inl k ↦ rw k (idle-IsOnce lib c.history c.frontier i)
    | inr k ↦ rw k i
  ]
  move-IsOnce m (find links) (visiting u) c i =
      push-IsOnce lib c.history (links_entries u links) c.frontier i
  move-IsOnce m fail (visiting u) c i = idle-IsOnce lib c.history c.frontier i
  move-IsOnce m abort (visiting u) c i = idle-IsOnce lib c.history c.frontier i
  move-IsOnce m finish (visited u) c i = idle-IsOnce lib c.history c.frontier i
  move-IsOnce m _ _ c i = tt

  step_at-IsOnce :
      (max_pages : ℕ) (a : Move) (before after vs : List Phase) (c d : Crawl)
      → step_at lib max_pages a before after c ≡ some (vs, d)
      → CrawlOnce lib c
      → CrawlOnce lib d
  unfolding step_at
  step_at-IsOnce m a before [] vs c d e i = cc
  step_at-IsOnce m a before (w ∷ after) vs c d e i =
      let (v, signal, k, r) = step_at-move lib m a before after vs w c d e in
      subst AfterMove k (move-IsOnce m a w c i)

  Reachable-IsOnce :
      (max_pages : ℕ) (c : Crawl) (ws : List Phase) → Reachable lib max_pages c ws → CrawlOnce lib c
  unfolding contains
  Reachable-IsOnce m _ _ (start max_depth scope_fn dfs seed n) =
      push-IsOnce lib [] (seed ∷ []) (record (new_url_frontier max_depth scope_fn) { dfs = dfs })
        record { once = λ s. refl; handed = tt; queued = tt }
  Reachable-IsOnce m _ _ (step c d before after vs x r e) =
      step_at-IsOnce m x before after vs c d e (Reachable-IsOnce m c (before ++ after) r)
  Reachable-IsOnce m _ _ (closing c ws r) =
      close-IsOnce lib c.history c.frontier (Reachable-IsOnce m c ws r)

-- No URL is handed out twice, and each one that is was within the depth limit and in scope. What
-- the frontier has seen has been handed out or is queued.
pub visits_lem :
    (lib : UrlLibrary) (max_pages : ℕ) (c : Crawl) (ws : List Phase)
    → Reachable lib max_pages c ws
    → All (Admissible lib c.frontier.max_depth c.frontier.scope_fn) c.history
      × ((s : Bytes) → occurrences lib s c.history ≤ 1)
      × ((s : Bytes)
          → contains c.frontier.seen s ≡ true
          → occurrences lib s c.history + occurrences lib s c.frontier.queue ≡ 1)
visits_lem lib m c ws r =
    let i = Reachable-IsOnce lib m c ws r in
    (i.handed, λ s. ground (arith, i.once s), λ s h. ground (arith, i.once s))

-- A crawl whose open frontier has sent a worker away has handed out every URL that it has seen,
-- exactly once.
pub complete_lem :
    (lib : UrlLibrary) (max_pages : ℕ) (c : Crawl) (ws : List Phase)
    → Reachable lib max_pages c ws
    → 0 < count is_exhausted ws
    → c.frontier.closed ≡ false
    → (s : Bytes) → contains c.frontier.seen s ≡ true
    → occurrences lib s c.history ≡ 1
complete_lem lib m c ws r h k s seen =
    let i = Reachable-IsOnce lib m c ws r in
    let (q, _, _) = exhausted_lem lib m c ws r h k in ground (arith, i.once s, q)

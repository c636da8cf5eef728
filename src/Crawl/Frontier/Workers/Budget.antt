-- ===== src/Crawl/Frontier/Workers/Budget.antt =====
-- The page budget of pkg/crawl/engine.go.
use vespasian.Prelude.{
  ℕ, suc, ◌+◌, ◌≤◌, Bool, true, false, if◌then◌else◌, ap, sym, ◌∙◌, Option, none, some, List, [],
  ◌∷◌, ◌≡◌, ◌⊎◌, inl, inr, refl, subst, arith, Bool-cases,
}
use vespasian.Crawl.Frontier.{UrlLibrary, Popped, entry, no_entry, wait, pop, Signal, silent}
use vespasian.Crawl.Frontier.Workers.{
  Phase, ready, cleared, taken, visiting, visited, left, Crawl, Move, leave, check, take_entry,
  reserve, find, fail, abort, finish, move, step_at, page_budget_reached, after_pop, Reachable,
  start, step, closing,
}
use vespasian.Crawl.Frontier.Workers.Wakeups.{step_at-move}

-- Within the budget, where there is one.
abbrev pub InBudget : ℕ → ℕ → Type 0
InBudget max_pages pages = (max_pages ≡ 0) ⊎ (pages ≤ max_pages)

-- The visits that a move begins, by what it comes to.
abbrev pub begun : Option (Phase × Crawl × Signal) → ℕ
begun (some (visiting e, d, signal)) = 1
begun _ = 0

abbrev pub begun_at : UrlLibrary → ℕ → Move → List Phase → Crawl → ℕ
begun_at lib max_pages x [] c = 0
begun_at lib max_pages x (w ∷ after) c = begun (move lib max_pages x w c)

-- How many pages have been visited: the moves of a run that begin a visit, whatever the program
-- itself counts.
unfoldable pub pages_visited :
    {lib : UrlLibrary} {max_pages : ℕ} {c : Crawl} {ws : List Phase}
    → Reachable lib max_pages c ws
    → ℕ
pages_visited (start max_depth scope_fn dfs seed n) = 0
pages_visited {lib} {max_pages} (step c d before after vs x r e) =
    begun_at lib max_pages x after c + pages_visited r
pages_visited (closing c ws r) = pages_visited r

-- A move counts the visit that it begins, and stays within the budget.
abbrev Counts : ℕ → Crawl → Option (Phase × Crawl × Signal) → Type 0
Counts max_pages c none = Unit
Counts max_pages c (some (v, d, signal)) =
    (d.page_count ≡ begun (some (v, d, signal)) + c.page_count) × InBudget max_pages d.page_count

unreached : (m n : ℕ) → page_budget_reached m n ≡ false → InBudget m (suc n)
unreached m n h = ground arith

pop-Counts :
    (m : ℕ) (c : Crawl) (p : Popped) → InBudget m c.page_count → Counts m c (some (after_pop c p))
pop-Counts m c (entry e g) i = (omega arith, i)
pop-Counts m c no_entry i = (omega arith, i)
pop-Counts m c wait i = (omega arith, i)

check-Counts :
    (m : ℕ) (c : Crawl) (b : Bool)
    → InBudget m c.page_count
    → Counts m c (some ((if b then left else cleared), c, silent))
check-Counts m c true i = (omega arith, i)
check-Counts m c false i = (omega arith, i)

move-Counts :
    (lib : UrlLibrary) (m : ℕ) (a : Move) (w : Phase) (c : Crawl)
    → InBudget m c.page_count
    → Counts m c (move lib m a w c)
unfolding move
move-Counts lib m leave ready c i = (omega arith, i)
move-Counts lib m check ready c i = check-Counts m c (page_budget_reached m c.page_count) i
move-Counts lib m take_entry cleared c i = pop-Counts m c (pop c.frontier) i
move-Counts lib m reserve (taken e) c i = elim (Bool-cases (page_budget_reached m c.page_count)) [
  | inl k ↦ rw k (omega arith, i)
  | inr k ↦ rw k (omega arith, unreached m c.page_count k)
]
move-Counts lib m (find links) (visiting e) c i = (omega arith, i)
move-Counts lib m fail (visiting e) c i = (omega arith, i)
move-Counts lib m abort (visiting e) c i = (omega arith, i)
move-Counts lib m finish (visited e) c i = (omega arith, i)
move-Counts lib m _ _ c i = tt

step_at-Counts :
    (lib : UrlLibrary) (m : ℕ) (a : Move) (before after vs : List Phase) (c d : Crawl)
    → step_at lib m a before after c ≡ some (vs, d)
    → InBudget m c.page_count
    → (d.page_count ≡ begun_at lib m a after c + c.page_count) × InBudget m d.page_count
unfolding step_at
step_at-Counts lib m a before [] vs c d e i = cc
step_at-Counts lib m a before (w ∷ after) vs c d e i =
    let (v, signal, k, r) = step_at-move lib m a before after vs w c d e in
    let counted : Counts m c (some (v, d, signal)) =
      subst (Counts m c) k (move-Counts lib m a w c i) in
    (counted.0 ∙ ap (λ o. begun o + c.page_count) (sym k), counted.1)

counted_lem :
    {lib : UrlLibrary} {max_pages : ℕ} {c : Crawl} {ws : List Phase}
    (r : Reachable lib max_pages c ws)
    → (c.page_count ≡ pages_visited r) × InBudget max_pages c.page_count
unfolding pages_visited
counted_lem (start max_depth scope_fn dfs seed n) = (refl, inr (omega arith))
counted_lem {lib} {max_pages} (step c d before after vs x r e) =
    let (same, i) = counted_lem r in
    let (more, j) = step_at-Counts lib max_pages x before after vs c d e i in
    (more ∙ ap (λ n. begun_at lib max_pages x after c + n) same, j)
counted_lem (closing c ws r) = counted_lem r

-- However the workers' steps come, the engine visits no more pages than its budget, where it has
-- one; and page_count is the number of the visits begun so far.
pub page_budget_lem :
    (lib : UrlLibrary) (max_pages : ℕ) (c : Crawl) (ws : List Phase)
    (r : Reachable lib max_pages c ws)
    → InBudget max_pages (pages_visited r) × (c.page_count ≡ pages_visited r)
page_budget_lem lib m c ws r = let (same, i) = counted_lem r in (subst (InBudget m) same i, same)

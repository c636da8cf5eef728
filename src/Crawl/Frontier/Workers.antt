-- ===== src/Crawl/Frontier/Workers.antt =====
-- `worker` of pkg/crawl/engine.go, which also `worker` of pkg/crawl/http_crawler.go follows: the
-- goroutines that share the frontier and the page budget, as a step relation.
-- A step is one critical section; the visit of a page gives its links or an error.
pub mod Counts
pub mod Wakeups
pub mod Progress
mod Once
pub mod Budget
pub mod Visits
use vespasian.Prelude.{
  ℕ, zero, suc, ◌+◌, Bool, true, false, not, ◌&&◌, Option, none, some, List, [], ◌∷◌, ◌++◌, ◌≡◌,
  map, Bytes, ltb, leb, if◌then◌else◌,
}
use vespasian.Prelude.Int.{ℤ, suc_ℤ}
use vespasian.Crawl.Frontier.{
  UrlLibrary, UrlEntry, Frontier, new_url_frontier, Signal, broadcast, silent, push, Popped, entry,
  no_entry, wait, pop, mark_idle, close,
}

-- Where a worker stands: before its checks, in `Pop`, in `cond.Wait`, with an entry before and after the budget's
-- reservation, behind `Push`, and gone, by an empty `Pop` or for another reason.
pub data Phase : Type 0 where
  ready cleared sleeping : Phase
  taken visiting visited : UrlEntry → Phase
  exhausted left : Phase

pub record Crawl : Type 0 where
  pub frontier : Frontier
  pub page_count : ℕ
  -- No part of the program's state: what `Pop` has handed out, the latest first.
  pub history : List UrlEntry

-- `maxPages <= 0` is no limit: here it is 0.
abbrev pub page_budget_reached : ℕ → ℕ → Bool
page_budget_reached max_pages page_count = ltb 0 max_pages && leb max_pages page_count

-- The ways on from a phase: the context is checked, the page gives links or fails.
pub data Move : Type 0 where
  leave check take_entry reserve : Move
  find : List Bytes → Move
  fail abort finish : Move

abbrev pub links_entries : UrlEntry → List Bytes → List UrlEntry
links_entries e [] = []
links_entries e (link ∷ links) =
    record { url = link; depth = suc_ℤ e.depth } ∷ links_entries e links

abbrev pub after_pop : Crawl → Popped → Phase × Crawl × Signal
after_pop c (entry e f) = (taken e, record c { frontier = f; history = e ∷ c.history }, silent)
after_pop c no_entry = (exhausted, c, silent)
after_pop c wait = (sleeping, c, silent)

-- `MarkIdle`, and then a phase.
abbrev pub idle_then : Phase → Crawl → Phase × Crawl × Signal
idle_then w c = let (f, signal) = mark_idle c.frontier in (w, record c { frontier = f }, signal)

unfoldable pub move : UrlLibrary → ℕ → Move → Phase → Crawl → Option (Phase × Crawl × Signal)
move lib max_pages leave ready c = some (left, c, silent)
move lib max_pages check ready c =
    some ((if page_budget_reached max_pages c.page_count then left else cleared), c, silent)
move lib max_pages take_entry cleared c = some (after_pop c (pop c.frontier))
move lib max_pages reserve (taken e) c =
    if page_budget_reached max_pages c.page_count
    then some (idle_then left c)
    else some (visiting e, record c { page_count = suc c.page_count }, silent)
move lib max_pages (find links) (visiting e) c =
    let (f, added, signal) = push lib (links_entries e links) c.frontier in
    some (visited e, record c { frontier = f }, signal)
move lib max_pages fail (visiting e) c = some (idle_then ready c)
move lib max_pages abort (visiting e) c = some (idle_then left c)
move lib max_pages finish (visited e) c = some (idle_then ready c)
move _ _ _ _ _ = none

-- A broadcast wakes all that wait: they are in the loop of `Pop` again.
abbrev pub wake : Phase → Phase
wake sleeping = cleared
wake w = w

abbrev pub heed : Signal → List Phase → List Phase
heed broadcast ws = map wake ws
heed silent ws = ws

-- The worker behind those of `before` moves.
unfoldable pub step_at :
    UrlLibrary → ℕ → Move → List Phase → List Phase → Crawl → Option (List Phase × Crawl)
step_at lib max_pages x before [] c = none
step_at lib max_pages x before (w ∷ after) c = elim (move lib max_pages x w c) [
  | none ↦ none
  | some (v, d, signal) ↦ some (heed signal (before ++ v ∷ after), d)
]

abbrev pub replicate : ℕ → List Phase
replicate zero = []
replicate (suc n) = ready ∷ replicate n

-- `Crawl` of an engine: a seed at depth 0 and then the workers.
abbrev pub seeded : UrlLibrary → ℤ → Option (Bytes → Bool) → Bool → UrlEntry → Crawl
seeded lib max_depth scope_fn dfs seed = record {
  frontier = (push lib (seed ∷ []) (record (new_url_frontier max_depth scope_fn) { dfs = dfs })).0;
  page_count = 0;
  history = [];
}

-- What a crawl reaches, in every order of the workers' steps.
pub data Reachable (lib : UrlLibrary) (max_pages : ℕ) : Crawl → List Phase → Type 0 where
  start :
      (max_depth : ℤ) (scope_fn : Option (Bytes → Bool)) (dfs : Bool) (seed : UrlEntry) (n : ℕ)
      → Reachable lib max_pages (seeded lib max_depth scope_fn dfs seed) (replicate n)
  step :
      (c d : Crawl) (before after vs : List Phase) (x : Move)
      → Reachable lib max_pages c (before ++ after)
      → step_at lib max_pages x before after c ≡ some (vs, d)
      → Reachable lib max_pages d vs
  closing :
      (c : Crawl) (ws : List Phase)
      → Reachable lib max_pages c ws
      → Reachable lib max_pages
          (record c { frontier = (close c.frontier).0 })
          (heed (close c.frontier).1 ws)

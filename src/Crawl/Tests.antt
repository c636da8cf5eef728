-- ===== src/Crawl/Tests.antt =====
-- Runs of pkg/crawl/frontier.go and its workers, and the theorems at concrete inputs.
use vespasian.Prelude.{
  ℕ, ◌+◌, ◌≤◌, ◌<◌, true, false, none, some, List, [], ◌∷◌, ◌≡◌, ◌⊎◌, refl, arith, Bytes, codes,
  All, str_eq,
}
use vespasian.Prelude.Int.{pos}
use vespasian.Prelude.Parts.{contains}
use vespasian.Crawl.Frontier.{
  UrlLibrary, UrlEntry, Frontier, new_url_frontier, normalize_url, push, pop, mark_idle, push_entry,
  push_loop,
}
use vespasian.Crawl.Frontier.Push.{Accepts, Admissible, occurrences, push_lem}
use vespasian.Crawl.Frontier.Workers.{
  ready, cleared, check, sleeping, taken, visiting, exhausted, Crawl, take_entry, reserve, fail,
  move, step_at, seeded, Reachable, start, step,
}
use vespasian.Crawl.Frontier.Workers.Budget.{InBudget, pages_visited, page_budget_lem}
use vespasian.Crawl.Frontier.Workers.Counts.{holds, sleeps, count}
use vespasian.Crawl.Frontier.Workers.Wakeups.{no_lost_wakeup, exhausted_lem}
use vespasian.Crawl.Frontier.Workers.Progress.{HasGone, CanStep, never_hangs}
use vespasian.Crawl.Frontier.Workers.Visits.{visits_lem, complete_lem}

-- Every text is its own URL, without a host.
abbrev plain : UrlLibrary
plain = record {
  parse = λ s. some (record { scheme = []; host = []; fragment = []; rest = s });
  print = λ u. u.rest;
  host_name = λ h. h;
  port = λ h. [];
  to_lower = λ s. s;
}

abbrev page : Bytes → ℕ → UrlEntry
page url depth = record { url = url; depth = pos depth }

abbrev home_page : UrlEntry
home_page = page (codes "/") 0

abbrev empty_frontier : Frontier
empty_frontier = new_url_frontier (pos 1) none

-- One page twice, and one that is too deep.
abbrev three_entries : List UrlEntry
three_entries = page (codes "/a") 1 ∷ page (codes "/a") 1 ∷ page (codes "/b") 2 ∷ []

push-one : (push plain three_entries empty_frontier).1 ≡ 1
unfolding push push_loop push_entry normalize_url contains str_eq
push-one = refl

push_lem_example :
    Accepts plain three_entries empty_frontier
      (push plain three_entries empty_frontier).0
      (push plain three_entries empty_frontier).1
      (push plain three_entries empty_frontier).2
push_lem_example = push_lem plain three_entries empty_frontier refl

abbrev seeded_crawl : Crawl
seeded_crawl = seeded plain (pos 1) none false home_page

abbrev drained_frontier : ℕ → Frontier
drained_frontier n = record empty_frontier { seen = codes "/" ∷ []; active = pos n }

abbrev crawl_at : ℕ → ℕ → Crawl
crawl_at active pages = record {
  frontier = drained_frontier active;
  page_count = pages;
  history = home_page ∷ [];
}

unfoldable both_cleared : Reachable plain 9 seeded_crawl (cleared ∷ cleared ∷ [])
unfolding step_at move
both_cleared =
    step seeded_crawl seeded_crawl (cleared ∷ []) (ready ∷ []) (cleared ∷ cleared ∷ []) check
      (step seeded_crawl seeded_crawl [] (ready ∷ ready ∷ []) (cleared ∷ ready ∷ []) check
        (start (pos 1) none false home_page 2) refl)
      refl

-- The first worker has the seed, and the second waits for its links.
unfoldable waiting_state : Reachable plain 9 (crawl_at 1 0) (taken home_page ∷ sleeping ∷ [])
unfolding step_at move push push_loop push_entry normalize_url contains str_eq pop
waiting_state =
    step (crawl_at 1 0) (crawl_at 1 0) (taken home_page ∷ []) (cleared ∷ [])
      (taken home_page ∷ sleeping ∷ []) take_entry
      (step seeded_crawl (crawl_at 1 0) [] (cleared ∷ cleared ∷ []) (taken home_page ∷ cleared ∷ [])
        take_entry both_cleared refl)
      refl

-- The first fails, which wakes the second: it finds the queue empty.
unfoldable gone_state : Reachable plain 9 (crawl_at 0 1) (ready ∷ exhausted ∷ [])
unfolding step_at move push push_loop push_entry normalize_url contains str_eq pop mark_idle
gone_state =
    step (crawl_at 0 1) (crawl_at 0 1) (ready ∷ []) (cleared ∷ []) (ready ∷ exhausted ∷ [])
      take_entry
      (step (crawl_at 1 1) (crawl_at 0 1) [] (visiting home_page ∷ sleeping ∷ [])
        (ready ∷ cleared ∷ []) fail
        (step (crawl_at 1 0) (crawl_at 1 1) [] (taken home_page ∷ sleeping ∷ [])
          (visiting home_page ∷ sleeping ∷ []) reserve waiting_state refl)
        refl)
      refl

one_visit : pages_visited gone_state ≡ 1
unfolding gone_state waiting_state both_cleared pages_visited move
one_visit = refl

page_budget_lem_example :
    InBudget 9 (pages_visited gone_state) × ((crawl_at 0 1).page_count ≡ pages_visited gone_state)
page_budget_lem_example = page_budget_lem plain 9 (crawl_at 0 1) (ready ∷ exhausted ∷ []) gone_state

no_lost_wakeup_example : ((crawl_at 1 0).frontier.queue ≡ []) × (false ≡ false) × (0 < 1)
no_lost_wakeup_example =
    no_lost_wakeup plain 9 (crawl_at 1 0) (taken home_page ∷ sleeping ∷ []) waiting_state
      (omega arith)

never_hangs_example :
    All HasGone (taken home_page ∷ sleeping ∷ [])
    ⊎ CanStep plain 9 (crawl_at 1 0) (taken home_page ∷ sleeping ∷ [])
never_hangs_example =
    never_hangs plain 9 (crawl_at 1 0) (taken home_page ∷ sleeping ∷ []) waiting_state

exhausted_lem_example :
    ((crawl_at 0 1).frontier.queue ≡ [])
    × (count holds (ready ∷ exhausted ∷ []) ≡ 0)
    × (count sleeps (ready ∷ exhausted ∷ []) ≡ 0)
exhausted_lem_example =
    exhausted_lem plain 9 (crawl_at 0 1) (ready ∷ exhausted ∷ []) gone_state (omega arith) refl

visits_lem_example :
    All (Admissible plain (pos 1) none) (home_page ∷ [])
    × ((s : Bytes) → occurrences plain s (home_page ∷ []) ≤ 1)
    × ((s : Bytes)
        → contains (codes "/" ∷ []) s ≡ true
        → occurrences plain s (home_page ∷ []) + occurrences plain s [] ≡ 1)
visits_lem_example = visits_lem plain 9 (crawl_at 0 1) (ready ∷ exhausted ∷ []) gone_state

seen_home : contains (codes "/" ∷ []) (codes "/") ≡ true
unfolding contains str_eq
seen_home = refl

complete_lem_example : occurrences plain (codes "/") (home_page ∷ []) ≡ 1
complete_lem_example =
    complete_lem plain 9 (crawl_at 0 1) (ready ∷ exhausted ∷ []) gone_state (omega arith) refl
      (codes "/") seen_home

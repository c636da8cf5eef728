-- ===== src/Crawl/Frontier/Workers/Wakeups.antt =====
-- The condition variable of pkg/crawl/frontier.go, under the workers of pkg/crawl/engine.go.
use vespasian.Prelude.{
  ℕ, zero, suc, ◌+◌, ◌<◌, Bool, false, Option, some, List, [], ◌∷◌, ◌++◌, ◌≡◌, inl, inr, refl,
  arith, Bytes, Option-cases,
}
use vespasian.Prelude.Int.{ℤ}
use vespasian.Crawl.Frontier.{
  UrlLibrary, UrlEntry, Frontier, Signal, broadcast, silent, pop, close, new_url_frontier,
}
use vespasian.Crawl.Frontier.Workers.{
  Phase, ready, cleared, check, taken, visiting, visited, Crawl, Move, leave, take_entry, reserve,
  find, fail, abort, finish, move, heed, step_at, Reachable, replicate, seeded, links_entries,
  start, step, closing,
}
use vespasian.Crawl.Frontier.Workers.Counts.{
  holds, sleeps, is_exhausted, count, IsSafe, AllSafeAt, AllSafe, still, mark_idle-IsSafe,
  push-IsSafe, close-IsSafe, after_pop-IsSafe, count-holds-wake, count-sleeps-wake,
  count-is_exhausted-wake,
}

-- A step of one worker, the others counted by `h`, `s` and `x`.
move-IsSafe :
    (lib : UrlLibrary) (max_pages : ℕ) (a : Move) (w v : Phase) (c d : Crawl) (signal : Signal)
    (h s x : ℕ)
    → move lib max_pages a w c ≡ some (v, d, signal)
    → IsSafe c.frontier (holds w + h) (sleeps w + s) (is_exhausted w + x)
    → IsSafe d.frontier (holds v + h) (still signal (sleeps v + s)) (is_exhausted v + x)
unfolding move
move-IsSafe lib m leave ready v c d signal h s x e i = ground arith
move-IsSafe lib m check ready v c d signal h s x e i = ground arith
move-IsSafe lib m take_entry cleared v c d signal h s x e i =
    ground (arith, after_pop-IsSafe c (pop c.frontier) h s x refl)
move-IsSafe lib m reserve (taken u) v c d signal h s x e i =
    ground (arith, mark_idle-IsSafe c.frontier h s x)
move-IsSafe lib m (find links) (visiting u) v c d signal h s x e i =
    ground (arith, push-IsSafe lib (links_entries u links) c.frontier (suc h) s x)
move-IsSafe lib m fail (visiting u) v c d signal h s x e i =
    ground (arith, mark_idle-IsSafe c.frontier h s x)
move-IsSafe lib m abort (visiting u) v c d signal h s x e i =
    ground (arith, mark_idle-IsSafe c.frontier h s x)
move-IsSafe lib m finish (visited u) v c d signal h s x e i =
    ground (arith, mark_idle-IsSafe c.frontier h s x)
move-IsSafe lib m _ _ v c d signal h s x e i = cc

heed-counts :
    (signal : Signal) (ws : List Phase)
    → (count holds (heed signal ws) ≡ count holds ws)
      × (count sleeps (heed signal ws) ≡ still signal (count sleeps ws))
      × (count is_exhausted (heed signal ws) ≡ count is_exhausted ws)
heed-counts broadcast ws = (count-holds-wake ws, count-sleeps-wake ws, count-is_exhausted-wake ws)
heed-counts silent ws = ground arith

count-middle :
    (p : Phase → ℕ) (before after : List Phase) (w : Phase)
    → count p (before ++ w ∷ after) ≡ p w + count p (before ++ after)
count-middle p [] after w = omega arith
count-middle p (v ∷ before) after w = omega (arith, count-middle p before after w)

IsSafe-eq :
    (f : Frontier) (h s x h' s' x' : ℕ)
    → IsSafe f h s x
    → h ≡ h'
    → s ≡ s'
    → x ≡ x'
    → IsSafe f h' s' x'
IsSafe-eq f h s x h' s' x' i a b c = ground arith

heed-IsSafe :
    (f : Frontier) (signal : Signal) (before after : List Phase) (v : Phase)
    → IsSafe f
        (holds v + count holds (before ++ after))
        (still signal (sleeps v + count sleeps (before ++ after)))
        (is_exhausted v + count is_exhausted (before ++ after))
    → AllSafeAt f (heed signal (before ++ v ∷ after))
heed-IsSafe f signal before after v i = ground (
  arith,
  heed-counts signal (before ++ v ∷ after),
  count-middle holds before after v,
  count-middle sleeps before after v,
  count-middle is_exhausted before after v,
)

pub step_at-move :
    (lib : UrlLibrary) (max_pages : ℕ) (a : Move) (before after vs : List Phase) (w : Phase)
    (c d : Crawl)
    → step_at lib max_pages a before (w ∷ after) c ≡ some (vs, d)
    → (v : Phase) × (signal : Signal) × (move lib max_pages a w c ≡ some (v, d, signal))
      × (vs ≡ heed signal (before ++ v ∷ after))
unfolding step_at
step_at-move lib m a before after vs w c d e = elim (Option-cases (move lib m a w c)) [
  | inl k ↦ ground arith
  | inr ((v, g, signal), k) ↦ (v, signal, ground arith, ground arith)
]

pub step_at-IsSafe :
    (lib : UrlLibrary) (max_pages : ℕ) (a : Move) (before after vs : List Phase) (c d : Crawl)
    → step_at lib max_pages a before after c ≡ some (vs, d)
    → AllSafe c (before ++ after)
    → AllSafe d vs
unfolding step_at
step_at-IsSafe lib m a before [] vs c d e i = cc
step_at-IsSafe lib m a before (w ∷ after) vs c d e i =
    let (v, signal, k, r) = step_at-move lib m a before after vs w c d e in
    rw r (
      heed-IsSafe d.frontier signal before after v (
        move-IsSafe lib m a w v c d signal _ _ _ k (
          IsSafe-eq c.frontier _ _ _ _ _ _ i (count-middle holds before after w)
            (count-middle sleeps before after w) (count-middle is_exhausted before after w))))

count-replicate :
    (n : ℕ)
    → (count holds (replicate n) ≡ 0)
      × (count sleeps (replicate n) ≡ 0)
      × (count is_exhausted (replicate n) ≡ 0)
count-replicate zero = (refl, refl, refl)
count-replicate (suc n) = ground (arith, count-replicate n)

seeded-AllSafe :
    (lib : UrlLibrary) (max_depth : ℤ) (scope_fn : Option (Bytes → Bool)) (dfs : Bool)
    (seed : UrlEntry) (n : ℕ)
    → AllSafe (seeded lib max_depth scope_fn dfs seed) (replicate n)
seeded-AllSafe lib max_depth scope_fn dfs seed n =
    let (h, s, x) = count-replicate n in
    let f = record (new_url_frontier max_depth scope_fn) { dfs = dfs } in
    let i = push-IsSafe lib (seed ∷ []) f 0 0 0 (inr refl) (ground arith) in
    ground (arith, i, h, s, x)

-- In every reachable state.
pub Reachable-AllSafe :
    (lib : UrlLibrary) (max_pages : ℕ) (c : Crawl) (ws : List Phase)
    → Reachable lib max_pages c ws
    → AllSafe c ws
Reachable-AllSafe lib m _ _ (start max_depth scope_fn dfs seed n) =
    seeded-AllSafe lib max_depth scope_fn dfs seed n
Reachable-AllSafe lib m _ _ (step c d before after vs x r e) =
    step_at-IsSafe lib m x before after vs c d e (Reachable-AllSafe lib m c (before ++ after) r)
Reachable-AllSafe lib m _ _ (closing c ws r) =
    let i = close-IsSafe c.frontier _ _ _ (Reachable-AllSafe lib m c ws r) in
    ground (arith, heed-counts (close c.frontier).1 ws)

-- No wake-up is lost: while a worker waits in Pop, the queue is empty, the frontier is open, and a
-- worker holds an entry, in whatever order the workers' steps come.
pub no_lost_wakeup :
    (lib : UrlLibrary) (max_pages : ℕ) (c : Crawl) (ws : List Phase)
    → Reachable lib max_pages c ws
    → 0 < count sleeps ws
    → (c.frontier.queue ≡ []) × (c.frontier.closed ≡ false) × (0 < count holds ws)
no_lost_wakeup lib m c ws r h = let i = Reachable-AllSafe lib m c ws r in ground (arith, i.awaited)

-- Pop says that the frontier is exhausted only when it is: once an open frontier has sent a worker
-- away, the queue is empty, no worker holds an entry and none waits, for ever after.
pub exhausted_lem :
    (lib : UrlLibrary) (max_pages : ℕ) (c : Crawl) (ws : List Phase)
    → Reachable lib max_pages c ws
    → 0 < count is_exhausted ws
    → c.frontier.closed ≡ false
    → (c.frontier.queue ≡ []) × (count holds ws ≡ 0) × (count sleeps ws ≡ 0)
exhausted_lem lib m c ws r h k =
    let i = Reachable-AllSafe lib m c ws r in ground (arith, i.awaited, i.drained)

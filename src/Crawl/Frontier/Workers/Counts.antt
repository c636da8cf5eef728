-- ===== src/Crawl/Frontier/Workers/Counts.antt =====
-- The workers of pkg/crawl/engine.go, counted by what they do, and what each operation of the
-- frontier keeps of the counts.
use vespasian.Prelude.{
  ℕ, zero, suc, ◌+◌, ◌<◌, true, false, List, [], ◌∷◌, ◌++◌, ◌≡◌, ◌⊎◌, refl, arith, map,
}
use vespasian.Prelude.Int.{pos}
use vespasian.Crawl.Frontier.{
  UrlLibrary, UrlEntry, Frontier, Signal, broadcast, silent, push_loop, push, Popped, entry,
  no_entry, wait, pop, mark_idle, close,
}
use vespasian.Crawl.Frontier.Push.{push_loop-induction}
use vespasian.Crawl.Frontier.Workers.{
  Phase, sleeping, taken, visiting, visited, exhausted, Crawl, wake, after_pop,
}

-- The workers that hold an entry, that wait, and that an empty queue has sent away.
abbrev pub holds : Phase → ℕ
holds (taken e) = 1
holds (visiting e) = 1
holds (visited e) = 1
holds _ = 0

abbrev pub sleeps : Phase → ℕ
sleeps sleeping = 1
sleeps _ = 0

abbrev pub is_exhausted : Phase → ℕ
is_exhausted exhausted = 1
is_exhausted _ = 0

abbrev pub count : (Phase → ℕ) → List Phase → ℕ
count p [] = 0
count p (w ∷ ws) = p w + count p ws

count-append : (p : Phase → ℕ) (ws vs : List Phase) → count p (ws ++ vs) ≡ count p ws + count p vs
count-append p [] vs = omega arith
count-append p (w ∷ ws) vs = omega (arith, count-append p ws vs)

pub count-holds-wake : (ws : List Phase) → count holds (map wake ws) ≡ count holds ws
count-holds-wake [] = refl
count-holds-wake (w ∷ ws) = ground (arith, count-holds-wake ws)

pub count-is_exhausted-wake :
    (ws : List Phase) → count is_exhausted (map wake ws) ≡ count is_exhausted ws
count-is_exhausted-wake [] = refl
count-is_exhausted-wake (w ∷ ws) = ground (arith, count-is_exhausted-wake ws)

pub count-sleeps-wake : (ws : List Phase) → count sleeps (map wake ws) ≡ 0
count-sleeps-wake [] = refl
count-sleeps-wake (w ∷ ws) = ground (arith, count-sleeps-wake ws)

-- `active` counts the workers that hold an entry; a worker waits, or has gone at an open frontier,
-- only while the queue is empty, and waits only while a worker holds an entry.
pub record IsSafe (f : Frontier) (h s x : ℕ) : Type 0 where
  pub counted : f.active ≡ pos h
  pub awaited : (s ≡ 0) ⊎ (f.queue ≡ []) × (f.closed ≡ false) × (0 < h)
  pub drained : (x ≡ 0) ⊎ (f.closed ≡ true) ⊎ (f.queue ≡ []) × (h ≡ 0)

abbrev pub AllSafeAt : Frontier → List Phase → Type 0
AllSafeAt f ws = IsSafe f (count holds ws) (count sleeps ws) (count is_exhausted ws)

abbrev pub AllSafe : Crawl → List Phase → Type 0
AllSafe c ws = AllSafeAt c.frontier ws

-- How many wait once a signal has been heeded.
abbrev pub still : Signal → ℕ → ℕ
still broadcast s = 0
still silent s = s

-- `MarkIdle` by one of `suc h` holders.
pub mark_idle-IsSafe :
    (f : Frontier) (h s x : ℕ)
    → IsSafe f (suc h) s x
    → IsSafe (mark_idle f).0 h (still (mark_idle f).1 s) x
unfolding mark_idle
mark_idle-IsSafe f zero s x i = ground arith
mark_idle-IsSafe f (suc h) s x i = ground arith

pub pop-IsSafe_entry :
    (f g : Frontier) (e : UrlEntry) (h s x : ℕ)
    → pop f ≡ entry e g
    → IsSafe f h s x
    → IsSafe g (suc h) s x
unfolding pop
pop-IsSafe_entry f g e h s x p i = ground (arith)

pop-IsSafe_wait : (f : Frontier) (h s x : ℕ) → pop f ≡ wait → IsSafe f h s x → IsSafe f h (suc s) x
unfolding pop
pop-IsSafe_wait f h s x p i = ground (arith)

pop-IsSafe_none :
    (f : Frontier) (h s x : ℕ) → pop f ≡ no_entry → IsSafe f h s x → IsSafe f h s (suc x)
unfolding pop
pop-IsSafe_none f h s x p i = ground (arith)

-- What `Push` leaves alone: with `n` entries let in, also the queue.
abbrev Same : Frontier → ℕ → Frontier → Type 0
Same f n g = (g.closed ≡ f.closed) × (g.active ≡ f.active) × ((n ≡ 0) → g.queue ≡ f.queue)

push_loop-Same :
    (lib : UrlLibrary) (es : List UrlEntry) (f : Frontier)
    → Same f (push_loop lib es 0 f).1 (push_loop lib es 0 f).0
push_loop-Same lib es f =
    push_loop-induction lib (Same f) (λ e n g s new. ground arith) es 0 f (ground arith)

-- `Push`, by a holder or before a worker has gone at an empty queue.
pub push-IsSafe :
    (lib : UrlLibrary) (es : List UrlEntry) (f : Frontier) (h s x : ℕ)
    → (0 < h) ⊎ (x ≡ 0)
    → IsSafe f h s x
    → IsSafe (push lib es f).0 h (still (push lib es f).2 s) x
unfolding push
push-IsSafe lib es f h s x o i = ground (arith, push_loop-Same lib es f)

pub close-IsSafe :
    (f : Frontier) (h s x : ℕ) → IsSafe f h s x → IsSafe (close f).0 h (still (close f).1 s) x
unfolding close
close-IsSafe f h s x i = ground arith

-- `Pop` by a worker that is ready.
pub after_pop-IsSafe :
    (c : Crawl) (p : Popped) (h s x : ℕ)
    → pop c.frontier ≡ p
    → IsSafe c.frontier h s x
    → IsSafe
        (after_pop c p).1.frontier
        (holds (after_pop c p).0 + h)
        (still (after_pop c p).2 (sleeps (after_pop c p).0 + s))
        (is_exhausted (after_pop c p).0 + x)
after_pop-IsSafe c (entry e g) h s x p i = ground (arith, pop-IsSafe_entry c.frontier g e h s x p i)
after_pop-IsSafe c no_entry h s x p i = ground (arith, pop-IsSafe_none c.frontier h s x p i)
after_pop-IsSafe c wait h s x p i = ground (arith, pop-IsSafe_wait c.frontier h s x p i)

-- ===== src/Crawl/Frontier/Workers/Once.antt =====
-- The entries that the frontier of pkg/crawl/frontier.go has queued and handed out, under its operations.
use vespasian.Prelude.{
  ◌+◌, Bool, true, false, List, [], ◌∷◌, ◌≡◌, inl, inr, sym, subst, arith, Bytes, All, All-append,
  All-last, Bool-cases,
}
use vespasian.Prelude.Int.{ℤ, suc_ℤ}
use vespasian.Prelude.Parts.{contains}
use vespasian.Crawl.Frontier.{
  UrlLibrary, UrlEntry, Frontier, push, Popped, entry, no_entry, wait, pop, mark_idle, close,
}
use vespasian.Crawl.Frontier.Push.{
  Admissible, occurrences, occurrences-append, indicator, enqueue, enqueue-once, IsNew,
  push_loop-induction,
}
use vespasian.Crawl.Frontier.Pop.{Takes, pop-entry}
use vespasian.Crawl.Frontier.Workers.{Crawl, after_pop}

module _ (lib : UrlLibrary) where
  -- Each URL that the frontier has seen was handed out or is queued, once; all are admissible.
  pub record IsOnce (history : List UrlEntry) (f : Frontier) : Type 0 where
    pub once :
        (s : Bytes)
        → occurrences lib s history + occurrences lib s f.queue ≡ indicator (contains f.seen s)
    pub handed : All (Admissible lib f.max_depth f.scope_fn) history
    pub queued : All (Admissible lib f.max_depth f.scope_fn) f.queue

  enqueue-IsOnce :
      (history : List UrlEntry) (e : UrlEntry) (f : Frontier)
      → IsOnce history f
      → IsNew lib e f
      → IsOnce history (enqueue lib e f)
  enqueue-IsOnce history e f i (a, n) = record {
    once = λ s.
        omega
          (arith, i.once s, occurrences-append lib s f.queue (e ∷ []), enqueue-once lib f e s n);
    handed = i.handed;
    queued = All-append _ f.queue (e ∷ []) i.queued (a, tt);
  }

  pub push-IsOnce :
      (history : List UrlEntry) (es : List UrlEntry) (f : Frontier)
      → IsOnce history f
      → IsOnce history (push lib es f).0
  unfolding push
  push-IsOnce history es f i = elim (Bool-cases f.closed) [
    | inl k ↦ simp k i
    | inr k ↦ simp k (
        push_loop-induction lib (λ n g. IsOnce history g)
          (λ e n g j new. enqueue-IsOnce history e g j new) es 0 f i)
  ]

  unsnoc-occurrences :
      (s : Bytes) (q rest : List UrlEntry) (e : UrlEntry) (dfs : Bool)
      → Takes dfs q e rest
      → occurrences lib s q ≡ occurrences lib s (e ∷ []) + occurrences lib s rest
  unsnoc-occurrences s q rest e true h =
      rw h (omega (arith, occurrences-append lib s rest (e ∷ [])))
  unsnoc-occurrences s q rest e false h = rw h (ground arith)

  Takes-All :
      (P : UrlEntry → Type 0) (q rest : List UrlEntry) (e : UrlEntry) (dfs : Bool)
      → Takes dfs q e rest
      → All P q
      → P e × All P rest
  Takes-All P q rest e true h a = All-last P rest e (subst (All P) h a)
  Takes-All P q rest e false h a = subst (All P) h a

  taken-IsOnce :
      (history : List UrlEntry) (f : Frontier) (e : UrlEntry) (rest : List UrlEntry) (a : ℤ)
      → Takes f.dfs f.queue e rest
      → IsOnce history f
      → IsOnce (e ∷ history) (record f { queue = rest; active = a })
  taken-IsOnce history f e rest a h i =
      let (ok_e, ok_rest) = Takes-All _ f.queue rest e f.dfs h i.queued in
      record {
        once = λ s. ground (arith, i.once s, unsnoc-occurrences s f.queue rest e f.dfs h);
        handed = (ok_e, i.handed);
        queued = ok_rest;
      }

  -- What `Pop` hands out joins the history.
  pub after_pop-IsOnce :
      (c : Crawl) (p : Popped)
      → pop c.frontier ≡ p
      → IsOnce c.history c.frontier
      → IsOnce (after_pop c p).1.history (after_pop c p).1.frontier
  after_pop-IsOnce c (entry e g) p i =
      let (h, k) = pop-entry c.frontier g e p in
      subst (IsOnce (e ∷ c.history)) (sym k)
        (taken-IsOnce c.history c.frontier e g.queue (suc_ℤ c.frontier.active) h i)
  after_pop-IsOnce c no_entry p i = i
  after_pop-IsOnce c wait p i = i

  abbrev pub CrawlOnce : Crawl → Type 0
  CrawlOnce c = IsOnce c.history c.frontier

  active-IsOnce :
      (history : List UrlEntry) (f : Frontier) (a : ℤ) (closed : Bool)
      → IsOnce history f
      → IsOnce history (record f { active = a; closed = closed })
  active-IsOnce history f a closed i = record {
    once = i.once;
    handed = i.handed;
    queued = i.queued;
  }

  pub idle-IsOnce :
      (history : List UrlEntry) (f : Frontier) → IsOnce history f → IsOnce history (mark_idle f).0
  unfolding mark_idle
  idle-IsOnce history f i = active-IsOnce history f _ f.closed i

  pub close-IsOnce :
      (history : List UrlEntry) (f : Frontier) → IsOnce history f → IsOnce history (close f).0
  unfolding close
  close-IsOnce history f i = active-IsOnce history f f.active true i

-- ===== src/Crawl/Frontier/Push.antt =====
-- What `Push` of pkg/crawl/frontier.go lets in.
use vespasian.Prelude.{
  ℕ, suc, ◌+◌, ◌≤◌, ◌<◌, ◌↔◌, Bool, true, false, Option, none, some, List, [], ◌∷◌, ◌++◌,
  append_assoc, append-nil, length-append, str_eq_refl, Bool-cases, ◌≡◌, ◌⊎◌, inl, inr, refl, sym,
  subst, arith, Bytes, length, str_eq, str_eq_iff, All, All-append, Bool-cases,
}
use vespasian.Prelude.Int.{ℤ}
use vespasian.Prelude.Parts.{contains}
use vespasian.Crawl.Frontier.{
  UrlLibrary, normalize_url, UrlEntry, Frontier, too_deep, in_scope, push_entry, push_loop, push,
  Signal, broadcast,
}

module _ (lib : UrlLibrary) where
  -- Within the depth limit and in scope, with a normalized form.
  abbrev pub Admissible : ℤ → Option (Bytes → Bool) → UrlEntry → Type 0
  Admissible max_depth scope_fn e =
      (too_deep max_depth e.depth ≡ false)
      × (in_scope scope_fn e.url ≡ true)
      × (str_eq (normalize_url lib e.url) [] ≡ false)

  -- How often a normalized URL stands in a list of entries.
  abbrev pub occurrences : Bytes → List UrlEntry → ℕ
  occurrences s [] = 0
  occurrences s (e ∷ es) = elim (str_eq (normalize_url lib e.url) s) [
    | true ↦ suc (occurrences s es)
    | false ↦ occurrences s es
  ]

  pub occurrences-append :
      (s : Bytes) (es ds : List UrlEntry)
      → occurrences s (es ++ ds) ≡ occurrences s es + occurrences s ds
  occurrences-append s [] ds = omega arith
  occurrences-append s (e ∷ es) ds = ground (arith, occurrences-append s es ds)

abbrev pub indicator : Bool → ℕ
indicator true = 1
indicator false = 0

module _ (lib : UrlLibrary) where
  -- The frontier with an entry let in.
  abbrev pub enqueue : UrlEntry → Frontier → Frontier
  enqueue e f = record f { seen = normalize_url lib e.url ∷ f.seen; queue = f.queue ++ e ∷ [] }

  abbrev pub IsNew : UrlEntry → Frontier → Type 0
  IsNew e f =
      Admissible lib f.max_depth f.scope_fn e × (contains f.seen (normalize_url lib e.url) ≡ false)

  pub push_entry-cases :
      (e : UrlEntry) (f : Frontier)
      → (push_entry lib e f ≡ none) ⊎ (push_entry lib e f ≡ some (enqueue e f)) × IsNew e f
  unfolding push_entry
  push_entry-cases e f = ground arith

  -- What every entry that is let in preserves, the loop of `Push` preserves.
  pub push_loop-induction :
      (P : ℕ → Frontier → Type 0)
      → ((e : UrlEntry) (n : ℕ) (f : Frontier) → P n f → IsNew e f → P (suc n) (enqueue e f))
      → (es : List UrlEntry) (n : ℕ) (f : Frontier) → P n f
      → P (push_loop lib es n f).1 (push_loop lib es n f).0
  unfolding push_loop
  push_loop-induction P h [] n f p = p
  push_loop-induction P h (e ∷ es) n f p = elim (push_entry-cases e f) [
    | inl k ↦ rw (push_loop, k) (push_loop-induction P h es n f p)
    | inr (k, new) ↦
        rw (push_loop, k) (push_loop-induction P h es (suc n) (enqueue e f) (h e n f p new))
  ]

  the_same :
      (seen : List Bytes) (s t : Bytes) → s ≡ t → contains seen s ≡ false → contains seen t ≡ false
  the_same seen s t e h = rw (sym e) h

  pub enqueue-once :
      (f : Frontier) (e : UrlEntry) (s : Bytes)
      → contains f.seen (normalize_url lib e.url) ≡ false
      → indicator (contains (normalize_url lib e.url ∷ f.seen) s)
        ≡ occurrences lib s (e ∷ []) + indicator (contains f.seen s)
  unfolding contains
  enqueue-once f e s h = elim (Bool-cases (str_eq (normalize_url lib e.url) s)) [
    | inl k ↦
        let same = (str_eq_iff (normalize_url lib e.url) s).0 k in
        let h' = the_same f.seen _ s same h in ground (arith, k, h')
    | inr k ↦ ground (arith, k)
  ]

  -- The loop of `Push` from `f`, with `n` entries let in.
  pub record Grown (f : Frontier) (n : ℕ) (g : Frontier) : Type 0 where
    pub new : List UrlEntry
    pub grown : g.queue ≡ f.queue ++ new
    pub added : length new ≡ n
    pub allowed : All (Admissible lib f.max_depth f.scope_fn) new
    pub sights :
        (s : Bytes)
        → indicator (contains g.seen s) ≡ indicator (contains f.seen s) + occurrences lib s new
    pub limit : g.max_depth ≡ f.max_depth
    pub scope : g.scope_fn ≡ f.scope_fn

  same_limits :
      (e : UrlEntry) (max_depth limit : ℤ) (scope_fn scope : Option (Bytes → Bool))
      → max_depth ≡ limit
      → scope_fn ≡ scope
      → Admissible lib max_depth scope_fn e
      → Admissible lib limit scope e
  same_limits e max_depth limit scope_fn scope p q a = rw (sym p) (rw (sym q) a)

  enqueue-Grown :
      (f : Frontier) (e : UrlEntry) (n : ℕ) (g : Frontier)
      → Grown f n g
      → IsNew e g
      → Grown f (suc n) (enqueue e g)
  enqueue-Grown f e n g i (a, b) = record {
    new = i.new ++ e ∷ [];
    grown = rw i.grown (append_assoc f.queue i.new (e ∷ []));
    added = ground (arith, length-append i.new (e ∷ []), i.added);
    allowed = All-append _ i.new (e ∷ []) i.allowed (same_limits e _ _ _ _ i.limit i.scope a, tt);
    sights = λ s.
        ground (arith, i.sights s, enqueue-once g e s b, occurrences-append lib s i.new (e ∷ []));
    limit = i.limit;
    scope = i.scope;
  }

  push_loop-Grown :
      (es : List UrlEntry) (f : Frontier)
      → Grown f (push_loop lib es 0 f).1 (push_loop lib es 0 f).0
  push_loop-Grown es f =
      push_loop-induction (Grown f) (λ e n g. enqueue-Grown f e n g) es 0 f
        record {
          new = [];
          grown = sym (append-nil f.queue);
          added = refl;
          allowed = tt;
          sights = λ s. omega arith;
          limit = refl;
          scope = refl;
        }

  -- `Push` passes over an entry for a reason.
  push_entry-none :
      (e : UrlEntry) (f : Frontier)
      → push_entry lib e f ≡ none
      → Admissible lib f.max_depth f.scope_fn e
      → contains f.seen (normalize_url lib e.url) ≡ true
  unfolding push_entry
  push_entry-none e f h a = ground arith

  -- What has been seen stays so.
  push_loop-seen :
      (es : List UrlEntry) (n : ℕ) (f : Frontier) (s : Bytes)
      → contains f.seen s ≡ true
      → contains (push_loop lib es n f).0.seen s ≡ true
  unfolding contains
  push_loop-seen es n f s h =
      push_loop-induction (λ m g. contains g.seen s ≡ true) (λ e m g k new. ground arith) es n f h

  enqueue-seen :
      (e : UrlEntry) (f : Frontier) → contains (enqueue e f).seen (normalize_url lib e.url) ≡ true
  unfolding contains
  enqueue-seen e f = ground (arith, str_eq_refl (normalize_url lib e.url))

  push_loop-none :
      (e : UrlEntry) (es : List UrlEntry) (n : ℕ) (f : Frontier)
      → push_entry lib e f ≡ none
      → push_loop lib es n f ≡ push_loop lib (e ∷ es) n f
  unfolding push_loop
  push_loop-none e es n f k = rw (push_loop, k) refl

  push_loop-some :
      (e : UrlEntry) (es : List UrlEntry) (n : ℕ) (f g : Frontier)
      → push_entry lib e f ≡ some g
      → push_loop lib es (suc n) g ≡ push_loop lib (e ∷ es) n f
  unfolding push_loop
  push_loop-some e es n f g k = rw (push_loop, k) refl

  -- The admissible entries of a list have been seen.
  abbrev pub Covers : List UrlEntry → Frontier → Frontier → Type 0
  Covers es f g =
      All
        (λ e.
          Admissible lib f.max_depth f.scope_fn e
          → contains g.seen (normalize_url lib e.url) ≡ true)
        es

  push_loop-Covers :
      (es : List UrlEntry) (n : ℕ) (f : Frontier) → Covers es f (push_loop lib es n f).0
  push_loop-Covers [] n f = tt
  push_loop-Covers (e ∷ es) n f = elim (push_entry-cases e f) [
    | inl k ↦
        subst (λ r. Covers (e ∷ es) f r.0) (push_loop-none e es n f k)
          (λ a. push_loop-seen es n f _ (push_entry-none e f k a), push_loop-Covers es n f)
    | inr (k, new) ↦
        subst (λ r. Covers (e ∷ es) f r.0) (push_loop-some e es n f (enqueue e f) k)
          (
            λ a. push_loop-seen es (suc n) (enqueue e f) _ (enqueue-seen e f),
            push_loop-Covers es (suc n) (enqueue e f),
          )
  ]

  -- What `Push` does on an open frontier.
  pub record Accepts (es : List UrlEntry) (f g : Frontier) (added : ℕ) (signal : Signal)
      : Type 0 where
    pub new : List UrlEntry
    pub queue : g.queue ≡ f.queue ++ new
    pub counted : length new ≡ added
    pub allowed : All (Admissible lib f.max_depth f.scope_fn) new
    pub fresh : (s : Bytes) → contains f.seen s ≡ true → occurrences lib s new ≡ 0
    pub once : (s : Bytes) → occurrences lib s new ≤ 1
    pub complete : Covers es f g
    pub signalled : (signal ≡ broadcast) ↔ (0 < added)

-- On an open frontier Push appends to the queue as many entries as it says. Each is admissible, with
-- a URL that was not seen before, and no URL comes twice; every admissible entry of the call has
-- been seen afterwards; and it broadcasts exactly if it appends an entry.
pub push_lem :
    (lib : UrlLibrary) (es : List UrlEntry) (f : Frontier)
    → f.closed ≡ false
    → Accepts lib es f (push lib es f).0 (push lib es f).1 (push lib es f).2
unfolding push
push_lem lib es f h =
    let i = push_loop-Grown lib es f in
    simp h record {
      new = i.new;
      queue = i.grown;
      counted = i.added;
      allowed = i.allowed;
      fresh = λ s k. ground (arith, i.sights s);
      once = λ s. ground (arith, i.sights s);
      complete = push_loop-Covers lib es 0 f;
      signalled = ground arith;
    }

-- ===== src/Crawl/Frontier/Pop.antt =====
-- The entry that `Pop` of pkg/crawl/frontier.go takes from the queue.
use vespasian.Prelude.{
  unsnoc, Bool, true, false, List, [], ◌∷◌, ◌++◌, ◌≡◌, ◌⊎◌, inl, inr, refl, sym, ap, subst, arith,
  ◌||◌, Bool-cases,
}
use vespasian.Prelude.Int.{suc_ℤ, is_zero}
use vespasian.Crawl.Frontier.{UrlEntry, Frontier, Popped, entry, no_entry, wait, pop, pop_queue}

unsnoc-append : (e : UrlEntry) (q : List UrlEntry) → (unsnoc e q).0 ++ (unsnoc e q).1 ∷ [] ≡ e ∷ q
unsnoc-append e [] = refl
unsnoc-append e (d ∷ q) = ap (λ es. e ∷ es) (unsnoc-append d q)

-- The queue from its two ends: depth-first takes the last entry, else it is the first.
abbrev pub Takes : Bool → List UrlEntry → UrlEntry → List UrlEntry → Type 0
Takes true q e rest = q ≡ rest ++ e ∷ []
Takes false q e rest = q ≡ e ∷ rest

-- What a round of `Pop` promises.
abbrev pub PopSays : Frontier → Popped → Type 0
PopSays f (entry e g) =
    Takes f.dfs f.queue e g.queue × (g ≡ record f { queue = g.queue; active = suc_ℤ f.active })
PopSays f no_entry = (f.queue ≡ []) × ((is_zero f.active ≡ true) ⊎ (f.closed ≡ true))
PopSays f wait = (f.queue ≡ []) × (is_zero f.active ≡ false) × (f.closed ≡ false)

pop_empty-says : (f : Frontier) → f.queue ≡ [] → PopSays f (pop_queue [] f)
pop_empty-says f h = elim (Bool-cases (is_zero f.active || f.closed)) [
  | inl k ↦ rw k (h, ground arith)
  | inr k ↦ rw k (h, ground arith, ground arith)
]

pop_taken-says :
    (f : Frontier) (e : UrlEntry) (q : List UrlEntry)
    → f.queue ≡ e ∷ q
    → PopSays f (pop_queue (e ∷ q) f)
pop_taken-says f e q h = elim (Bool-cases f.dfs) [
  | inl k ↦ rw k (rw h (sym (unsnoc-append e q)), refl)
  | inr k ↦ rw k (h, refl)
]

pop_queue-says : (q : List UrlEntry) (f : Frontier) → f.queue ≡ q → PopSays f (pop_queue q f)
pop_queue-says [] f h = pop_empty-says f h
pop_queue-says (e ∷ q) f h = pop_taken-says f e q h

-- A round of Pop takes the last entry of the queue in depth-first order, else the first, counts the
-- worker as active and changes nothing else. On an empty queue it gives up if no worker is active
-- or the frontier is closed, and waits otherwise.
pub pop_lem : (f : Frontier) → PopSays f (pop f)
unfolding pop
pop_lem f = pop_queue-says f.queue f refl

pub pop-entry : (f g : Frontier) (e : UrlEntry) → pop f ≡ entry e g → PopSays f (entry e g)
pop-entry f g e p = subst (PopSays f) p (pop_lem f)

-- ===== src/Crawl/Frontier.antt =====
-- pkg/crawl/frontier.go: the queue of URLs to visit; and `normalizeURL` of pkg/crawl/scope.go.
-- An operation is one critical section: its result holds what it does to the condition variable.
-- The lock, the capacity of the queue's array and its zeroed slots are not modelled.
pub mod Push
pub mod Pop
pub mod Workers
use vespasian.Prelude.{
  unsnoc, ℕ, zero, suc, Bool, true, false, not, ◌&&◌, ◌||◌, Option, none, some, List, [], ◌∷◌, ◌++◌,
  Bytes, codes, length, ltb, leb, ◌==◌, str_eq, if◌then◌else◌,
}
use vespasian.Prelude.Int.{ℤ, pos, negsuc, suc_ℤ, pred_ℤ, is_zero, ltb_ℤ}
use vespasian.Prelude.Parts.{contains}

-- The fields of a `url.URL` that the code sets, and all others as `rest`.
pub record Url : Type 0 where
  pub scheme : Bytes
  pub host : Bytes
  pub fragment : Bytes
  pub rest : Bytes

-- What the code calls of `net/url` and `strings`: `host_name` and `port` read a host.
pub record UrlLibrary : Type 0 where
  pub parse : Bytes → Option Url
  pub print : Url → Bytes
  pub host_name : Bytes → Bytes
  pub port : Bytes → Bytes
  pub to_lower : Bytes → Bytes

abbrev pub is_default_port : Bytes → Bytes → Bool
is_default_port scheme port =
    (str_eq scheme (codes "http") && str_eq port (codes "80"))
    || (str_eq scheme (codes "https") && str_eq port (codes "443"))

unfoldable pub normalize_url : UrlLibrary → Bytes → Bytes
normalize_url lib raw = elim (lib.parse raw) [
  | none ↦ []
  | some u ↦
      (let host = lib.to_lower u.host in
        let scheme = lib.to_lower u.scheme in
        lib.print record u {
          fragment = [];
          scheme = scheme;
          host = if is_default_port scheme (lib.port host) then lib.host_name host else host;
        })
]

pub record UrlEntry : Type 0 where
  pub url : Bytes
  pub depth : ℤ

-- `seen` lists the keys of the map, each of which is stored once with the value true.
pub record Frontier : Type 0 where
  pub queue : List UrlEntry
  pub seen : List Bytes
  pub max_depth : ℤ
  pub scope_fn : Option (Bytes → Bool)
  pub active : ℤ
  pub closed : Bool
  pub dfs : Bool

abbrev pub new_url_frontier : ℤ → Option (Bytes → Bool) → Frontier
new_url_frontier max_depth scope_fn = record {
  queue = [];
  seen = [];
  max_depth = max_depth;
  scope_fn = scope_fn;
  active = pos 0;
  closed = false;
  dfs = false;
}

-- What an operation does to the goroutines that wait in `Pop`.
pub data Signal : Type 0 where
  broadcast silent : Signal

abbrev pub too_deep : ℤ → ℤ → Bool
too_deep max_depth depth = not (ltb_ℤ max_depth (pos 0)) && ltb_ℤ max_depth depth

abbrev pub in_scope : Option (Bytes → Bool) → Bytes → Bool
in_scope none url = true
in_scope (some scope_fn) url = scope_fn url

-- One round of the loop of `Push`; `none` is `continue`.
unfoldable pub push_entry : UrlLibrary → UrlEntry → Frontier → Option Frontier
push_entry lib e f =
    let normalized = normalize_url lib e.url in
    if too_deep f.max_depth e.depth
    then none
    else if str_eq normalized []
    then none
    else if contains f.seen normalized
    then none
    else if not (in_scope f.scope_fn e.url)
    then none
    else some (record f { seen = normalized ∷ f.seen; queue = f.queue ++ e ∷ [] })

unfoldable pub push_loop : UrlLibrary → List UrlEntry → ℕ → Frontier → Frontier × ℕ
push_loop lib [] added f = (f, added)
push_loop lib (e ∷ es) added f = elim (push_entry lib e f) [
  | none ↦ push_loop lib es added f
  | some g ↦ push_loop lib es (suc added) g
]

abbrev pub push_signal : ℕ → Signal
push_signal added = if ltb 0 added then broadcast else silent

unfoldable pub push : UrlLibrary → List UrlEntry → Frontier → Frontier × ℕ × Signal
push lib entries f =
    if f.closed
    then (f, 0, silent)
    else (let (g, added) = push_loop lib entries 0 f in (g, added, push_signal added))

abbrev pub set_dfs : Bool → Frontier → Frontier
set_dfs v f = record f { dfs = v }

-- The outcomes of a round of `Pop`: an entry, no entry, or `cond.Wait`.
pub data Popped : Type 0 where
  entry : UrlEntry → Frontier → Popped
  no_entry : Popped
  wait : Popped

abbrev pub pop_queue : List UrlEntry → Frontier → Popped
pop_queue [] f = if is_zero f.active || f.closed then no_entry else wait
pop_queue (e ∷ q) f =
    let (front, last) = unsnoc e q in
    if f.dfs
    then entry last (record f { queue = front; active = suc_ℤ f.active })
    else entry e (record f { queue = q; active = suc_ℤ f.active })

-- A round of the loop of `Pop`. A goroutine that waits is in the next round once it is woken.
unfoldable pub pop : Frontier → Popped
pop f = pop_queue f.queue f

abbrev pub is_nil : List UrlEntry → Bool
is_nil [] = true
is_nil (e ∷ q) = false

unfoldable pub mark_idle : Frontier → Frontier × Signal
mark_idle f =
    let active = pred_ℤ f.active in
    (record f { active = active }, if is_zero active && is_nil f.queue then broadcast else silent)

unfoldable pub close : Frontier → Frontier × Signal
close f = (record f { closed = true }, broadcast)

abbrev pub len : Frontier → ℕ
len f = length f.queue

abbrev pub seen_count : Frontier → ℕ
seen_count f = length f.seen

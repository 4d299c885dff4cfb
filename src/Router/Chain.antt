-- ===== src/Router/Chain.antt =====
-- Which handlers of a chain Next of wxf/context.go runs, and which chain wxf/router.go gives it.
use wxf_im.Prelude.{
  ℕ, zero, suc, ◌+◌, ◌≤◌, ◌<◌, ◌≡◌, refl, sym, ap, ◌∙◌, inl, inr, true, none, some, List, [], ◌∷◌,
  ◌++◌, arith, ltb, if◌then◌else◌, ltb→lt, Bool-cases, length, get_elem?, All, Bytes, bytes_eq,
  bytes_eq_refl, ok,
}
use mathlib.Core.List.{append-nil, append_assoc}
use wxf_im.Prelude.Assoc.{insert, lookup-insert}
use wxf_im.Router.{
  Action, does, calls_next, HandlerFunc, HandlersChain, Event, started, did, Context, perform,
  entered, next, tree_get, chain_or, tree_add, Router, use_handlers, handle, serve_context, serve,
}

-- The handlers that started, in order.
abbrev pub starts : {E : Type 0} → List (Event E) → List ℕ
starts [] = []
starts (started i ∷ es) = i ∷ starts es
starts (did e ∷ es) = starts es

-- `k` numbers from `i` on
abbrev pub from : ℕ → ℕ → List ℕ
from i zero = []
from i (suc k) = i ∷ from (suc i) k

-- A handler that is not nil.
abbrev pub IsPresent : {E : Type 0} → HandlerFunc E → Type 0
IsPresent {E} h = (body : List (Action E)) × (h ≡ some body)

from_add : (i k l : ℕ) → from i (k + l) ≡ from i k ++ from (i + k) l
from_add i zero l =
    let none_more : 0 + l ≡ l = omega arith in
    let here : i ≡ i + 0 = omega arith in ap (from i) none_more ∙ ap (λ j. from j l) here
from_add i (suc k) l =
    let one_more : suc k + l ≡ suc (k + l) = omega arith in
    let there : suc i + k ≡ i + suc k = omega arith in
    ap (from i) one_more
    ∙ ap (◌∷◌ i) (from_add (suc i) k l)
    ∙ ap (λ j. i ∷ (from (suc i) k ++ from j l)) there

module _ {E : Type 0} where
  starts-append : (es ds : List (Event E)) → starts (es ++ ds) ≡ starts es ++ starts ds
  starts-append [] ds = refl
  starts-append (started i ∷ es) ds = ap (◌∷◌ i) (starts-append es ds)
  starts-append (did e ∷ es) ds = starts-append es ds

  get_elem?-IsPresent :
      (hs : HandlersChain E) (i : ℕ)
      → All IsPresent hs
      → i < length hs
      → (body : List (Action E)) × (get_elem? hs i ≡ some (some body))
  get_elem?-IsPresent [] i h below = absurd (omega arith)
  get_elem?-IsPresent (g ∷ hs) zero h below = (h.0.0, ap some h.0.1)
  get_elem?-IsPresent (g ∷ hs) (suc i) h below = get_elem?-IsPresent hs i h.1 (omega arith)

  get_elem?-beyond : (hs : HandlersChain E) → get_elem? hs (length hs) ≡ none
  get_elem?-beyond [] = refl
  get_elem?-beyond (g ∷ hs) = get_elem?-beyond hs

  -- From `c` to `d` the handlers at the indices in between started, once each and in order.
  record Advanced (c d : Context E) (k : ℕ) : Type 0 where
    same : d.handlers ≡ c.handlers
    moved : d.index ≡ c.index + k
    ran : starts d.events ≡ starts c.events ++ from c.index k

  stays : (c : Context E) → Advanced c c 0
  stays c = record { same = refl; moved = omega arith; ran = sym (append-nil (starts c.events)) }

  joins : (c d e : Context E) (k l : ℕ) → Advanced c d k → Advanced d e l → Advanced c e (k + l)
  joins c d e k l f g = record {
    same = g.same ∙ f.same;
    moved = omega (arith, f.moved, g.moved);
    ran =
        g.ran
        ∙ ap (λ es. es ++ from d.index l) f.ran
        ∙ append_assoc (starts c.events) (from c.index k) (from d.index l)
        ∙ ap (λ i. starts c.events ++ (from c.index k ++ from i l)) f.moved
        ∙ ap (◌++◌ (starts c.events)) (sym (from_add c.index k l));
  }

  enters : (c : Context E) → Advanced c (entered c) 1
  enters c = record {
    same = refl;
    moved = omega arith;
    ran = starts-append c.events (started c.index ∷ []);
  }

  does-Advanced :
      (c : Context E) (e : E) → Advanced c (record c { events = c.events ++ did e ∷ [] }) 0
  does-Advanced c e = record {
    same = refl;
    moved = omega arith;
    ran = starts-append c.events (did e ∷ []);
  }

  -- `g` runs the handlers that are left, in contexts of the chain `hs` from the index `low` on.
  abbrev Finishes : HandlersChain E → ℕ → (Context E → Context E) → Type 0
  Finishes hs low g =
      (c : Context E)
      → c.handlers ≡ hs
      → low ≤ c.index
      → c.index ≤ length hs
      → (k : ℕ) × Advanced c (g c) k × (c.index + k ≡ length hs)

  perform-Advanced :
      (hs : HandlersChain E) (low : ℕ) (g : Context E → Context E) (body : List (Action E))
      (c : Context E)
      → Finishes hs low g
      → c.handlers ≡ hs
      → low ≤ c.index
      → c.index ≤ length hs
      → (k : ℕ) × Advanced c (perform g body c) k × (c.index + k ≤ length hs)
  unfolding perform
  perform-Advanced hs low g [] c h same above below = (0, stays c, omega arith)
  perform-Advanced hs low g (does e ∷ more) c h same above below =
      let c' : Context E = record c { events = c.events ++ did e ∷ [] } in
      let (k, run, le) = perform-Advanced hs low g more c' h same above below in
      (0 + k, joins c c' _ 0 k (does-Advanced c e) run, omega (arith, le))
  perform-Advanced hs low g (calls_next ∷ more) c h same above below =
      let (k, run, end) = h c same above below in
      let (l, rest, le) =
        perform-Advanced hs low g more (g c) h (run.same ∙ same) (omega (arith, run.moved))
          (omega (arith, run.moved)) in
      (k + l, joins c (g c) _ k l run rest, omega (arith, run.moved))

  next-finished : (fuel : ℕ) (c : Context E) → c.index ≡ length c.handlers → next fuel c ≡ c
  unfolding next
  next-finished zero c end = refl
  next-finished (suc fuel) c end =
      let beyond : get_elem? c.handlers c.index ≡ none =
        ap (get_elem? c.handlers) end ∙ get_elem?-beyond c.handlers in
      rw (beyond, next) refl

  next-Finishes :
      (fuel low : ℕ) (hs : HandlersChain E)
      → All IsPresent hs
      → length hs < fuel + low
      → Finishes hs low (next fuel)
  unfolding next
  next-Finishes zero low hs all_set enough c same above below = absurd (omega arith)
  next-Finishes (suc fuel) low hs all_set enough c same above below =
      elim (Bool-cases (ltb c.index (length hs))) [
        | inr finished ↦
            let end : c.index ≡ length hs = ground arith in
            let idle = next-finished (suc fuel) c (end ∙ ap length (sym same)) in
            (0, rw idle (stays c), omega arith)
        | inl left ↦
            let (body, found) = get_elem?-IsPresent hs c.index all_set (ltb→lt _ _ left) in
            let (k, run, le) =
              perform-Advanced hs (suc low) (next fuel) body (entered c)
                (next-Finishes fuel (suc low) hs all_set (omega arith)) same (omega arith)
                (ground arith) in
            let d : Context E = perform (next fuel) body (entered c) in
            let first = joins c (entered c) d 1 k (enters c) run in
            let (l, rest, end) =
              next-Finishes fuel (suc low) hs all_set (omega arith) d (first.same ∙ same)
                (omega (arith, first.moved)) (omega (arith, first.moved, le)) in
            let found_here : get_elem? c.handlers c.index ≡ some (some body) =
              ap (λ h. get_elem? h c.index) same ∙ found in
            let step : next (suc fuel) c ≡ next fuel d = rw (found_here, next) refl in
            (1 + k + l, rw step (joins c d _ (1 + k) l first rest), omega (arith, first.moved, end))
      ]

  -- Serve runs the chain of the packet's command, or the one handler for unknown commands: if
  -- none of its handlers is nil, each starts exactly once, in order, wherever the handlers call
  -- Next and whatever the context of the pool was used for before.
  pub serve-starts :
      (not_found : HandlerFunc E) (command : Bytes) (r : Router E) (pooled : Context E)
      → All IsPresent (chain_or (not_found ∷ []) (tree_get command r.nodes))
      → (es : List (Event E)) × (serve not_found true true command r pooled ≡ ok es)
        × (starts es ≡ from 0 (length (chain_or (not_found ∷ []) (tree_get command r.nodes))))
  unfolding serve serve_context
  serve-starts not_found command r pooled all_set =
      let chain = chain_or (not_found ∷ []) (tree_get command r.nodes) in
      let c : Context E = record { handlers = chain; index = 0; events = [] } in
      let (k, run, end) =
        next-Finishes (suc (length chain)) 0 chain all_set (omega arith) c refl (omega arith)
          (omega arith) in
      let whole : k ≡ length chain = omega (arith, end) in
      ((next (suc (length chain)) c).events, refl, run.ran ∙ ap (from 0) whole)

  -- Handle appends to the chain of its command the middlewares that Use has given so far, and then
  -- the handlers; the chains of other commands stay, and a later Use changes no chain.
  pub handle_lem :
      (command other : Bytes) (handlers later : HandlersChain E) (r : Router E)
      → (tree_get other (handle command handlers r).nodes ≡ (
          if bytes_eq command other
          then some ((chain_or [] (tree_get command r.nodes) ++ r.middlewares) ++ handlers)
          else tree_get other r.nodes))
        × ((use_handlers later (handle command handlers r)).nodes
            ≡ (handle command handlers r).nodes)
  unfolding handle tree_add use_handlers
  handle_lem command other handlers later r =
      let own = chain_or [] (tree_get command r.nodes) ++ r.middlewares in
      let first : tree_get command (insert command own r.nodes) ≡ some own =
        lookup-insert command command own r.nodes ∙ rw (bytes_eq_refl command) refl in
      (
        rw (first, lookup-insert command other (own ++ handlers) (insert command own r.nodes))
            (ground (arith, lookup-insert command other own r.nodes)),
        refl,
      )

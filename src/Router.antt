-- ===== src/Router.antt =====
-- wxf/router.go, and Next of wxf/context.go: the chains of handlers, and how a chain is run.
pub mod Chain
pub mod Dispatch
use wxf_im.Prelude.{
  ℕ, zero, suc, ◌+◌, Bool, Option, none, some, List, [], ◌∷◌, ◌++◌, length, get_elem?, Bytes,
  Outcome, ok, ◌>>=◌, ◌>>◌, guard, dispatcher_nil, cache_nil,
}
use wxf_im.Prelude.Assoc
use wxf_im.Prelude.Assoc.{Assoc, insert}

-- What a HandlerFunc does with its context in a run, step by step: something of its own, or a
-- call of ctx.Next().
pub data Action (E : Type 0) : Type 0 where
  does : E → Action E
  calls_next : Action E

-- A HandlerFunc; `none` is nil.
abbrev pub HandlerFunc : Type 0 → Type 0
HandlerFunc E = Option (List (Action E))

abbrev pub HandlersChain : Type 0 → Type 0
HandlersChain E = List (HandlerFunc E)

-- What happens while a chain runs: the handler at an index starts, or some handler does something.
pub data Event (E : Type 0) : Type 0 where
  started : ℕ → Event E
  did : E → Event E

-- The fields of ContextImpl that Next reads and writes, with the events so far.
pub record Context (E : Type 0) : Type 0 where
  pub handlers : HandlersChain E
  pub index : ℕ
  pub events : List (Event E)

module _ {E : Type 0} where
  -- The body of a handler, given what its calls of Next do.
  unfoldable pub perform : (Context E → Context E) → List (Action E) → Context E → Context E
  perform next_of [] c = c
  perform next_of (does e ∷ more) c =
      perform next_of more (record c { events = c.events ++ did e ∷ [] })
  perform next_of (calls_next ∷ more) c = perform next_of more (next_of c)

  abbrev pub entered : Context E → Context E
  entered c = record c { index = suc c.index; events = c.events ++ started c.index ∷ [] }

  -- Next(). Each call that runs a handler raises the index, so fuel above the number of handlers
  -- left is enough.
  unfoldable pub next : ℕ → Context E → Context E
  next zero c = c
  next (suc fuel) c = elim (get_elem? c.handlers c.index) [
    | none ↦ c
    | some none ↦ record c { index = suc c.index }
    | some (some body) ↦ next fuel (perform (next fuel) body (entered c))
  ]

  -- (t *FuncTree) Get(path)
  abbrev pub tree_get : Bytes → Assoc (HandlersChain E) → Option (HandlersChain E)
  tree_get path nodes = Assoc.lookup path nodes

  -- A chain that was looked up, or another one where there is none.
  abbrev pub chain_or : HandlersChain E → Option (HandlersChain E) → HandlersChain E
  chain_or other none = other
  chain_or other (some chain) = chain

  -- (t *FuncTree) Add(path, handlers...)
  unfoldable pub tree_add :
      Bytes → HandlersChain E → Assoc (HandlersChain E) → Assoc (HandlersChain E)
  tree_add path handlers nodes = insert path (chain_or [] (tree_get path nodes) ++ handlers) nodes

-- Router, without its pool
pub record Router (E : Type 0) : Type 0 where
  pub middlewares : HandlersChain E
  pub nodes : Assoc (HandlersChain E)

module _ {E : Type 0} where
  -- NewRouter()
  abbrev pub new_router : Router E
  new_router = record { middlewares = []; nodes = [] }

  -- Use(handlers...)
  unfoldable pub use_handlers : HandlersChain E → Router E → Router E
  use_handlers handlers r = record r { middlewares = r.middlewares ++ handlers }

  -- Handle(command, handlers...)
  unfoldable pub handle : Bytes → HandlersChain E → Router E → Router E
  handle command handlers r = record r {
    nodes = tree_add command handlers (tree_add command r.middlewares r.nodes);
  }

  -- ctx.reset(): the pool gives a context that an earlier call may have used.
  abbrev pub reset : Context E → Context E
  reset c = record { handlers = []; index = 0; events = [] }

  -- serveContext(ctx), where `not_found` is handleNoFound
  unfoldable pub serve_context : HandlerFunc E → Bytes → Router E → Context E → Context E
  serve_context not_found command r c =
      let chain = chain_or (not_found ∷ []) (tree_get command r.nodes) in
      next (suc (length chain)) (record c { handlers = chain })

  -- Serve(packet, dispatcher, cache, session): whether the two are nil, and the context of the pool.
  unfoldable pub serve :
      HandlerFunc E → Bool → Bool → Bytes → Router E → Context E → Outcome (List (Event E))
  serve not_found has_dispatcher has_cache command r pooled = do
    guard has_dispatcher dispatcher_nil
    guard has_cache cache_nil
    ok (serve_context not_found command r (reset pooled)).events

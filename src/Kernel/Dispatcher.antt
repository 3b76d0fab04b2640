-- ===== src/Kernel/Dispatcher.antt =====
-- `MiddlewarePipeline` (kernel/middleware_pipeline.py) and `Dispatcher` (kernel/dispatcher.py),
-- with and without a trace recorder. A middleware's body is code of the application: a `Script`
-- over a user state, which may call the next handler as often as it likes and sees what it returned
-- or raised. Log lines are left out.
pub mod Tracing
pub mod Onion
use sagittarius_engine.Prelude.{
  Bool, true, false, ℕ, suc, String, Option, none, some, List, [], ◌∷◌, ◌++◌, reverse, mentions,
  if◌then◌else◌,
}

pub data Outcome (R : Type 0) : Type 0 where
  returned : R → Outcome R
  raised : String → Outcome R

-- What the body of `process(cmd_or_query, dto, next_handler)` does.
pub data Script (S O : Type 0) : Type 0 where
  finish : O → Script S O
  look : (S → Script S O) → Script S O
  set : S → Script S O → Script S O
  call_next : (O → Script S O) → Script S O

pub data Lane : Type 0 where
  kernel_lane extension_lane event_bus_lane dispatch_lane middleware_lane : Lane
  task_lane scheduler_lane hosted_lane user_lane : Lane

pub record Span : Type 0 where
  pub lane : Lane
  pub name : String
  pub cat : String
  pub cid : ℕ

pub data Mark : Type 0 where
  span_begin span_end : Span → Mark

-- The state of the application, and the recorder: its marks and the last correlation id.
pub record World (S : Type 0) : Type 0 where
  pub user : S
  pub marks : List Mark
  pub last_cid : ℕ

pub record Middleware (S O : Type 0) : Type 0 where
  pub name : String
  pub process : Script S O

-- A resolved handler; `execute(input_dto)`.
pub record Handler (S O : Type 0) : Type 0 where
  pub class_name : String
  pub execute : S → O × S

abbrev pub Computation : Type 0 → Type 0 → Type 0
Computation S O = World S → O × World S

abbrev pub mark : {S : Type 0} → Mark → World S → World S
mark m w = record w { marks = w.marks ++ m ∷ [] }

abbrev pub next_cid : {S : Type 0} → World S → World S
next_cid w = record w { last_cid = suc w.last_cid }

module _ {S O : Type 0} where
  unfoldable pub run : Script S O → Computation S O → World S → O × World S
  run (finish o) next w = (o, w)
  run (look f) next w = run (f w.user) next w
  run (set s script) next w = run script next (record w { user = s })
  run (call_next k) next w = let r = next w in run (k r.0) next r.1

  abbrev pub add : Middleware S O → List (Middleware S O) → List (Middleware S O)
  add m ms = ms ++ m ∷ []

  -- `functools.partial(middleware.process, …, next_handler)`.
  abbrev pub frame : Middleware S O → Computation S O → Computation S O
  frame m next = run m.process next

  -- A `try: … finally: span_end` behind a `span_begin`.
  abbrev pub spanned : Span → Computation S O → Computation S O
  spanned s body w = let r = body (mark (span_begin s) w) in (r.0, mark (span_end s) r.1)

  abbrev pub traced_frame : ℕ → Middleware S O → Computation S O → Computation S O
  traced_frame cid m next =
      spanned (record { lane = middleware_lane; name = m.name; cat = ""; cid = cid }) (frame m next)

  -- The loop over `reversed(self.middlewares)`.
  unfoldable pub chain :
      (Middleware S O → Computation S O → Computation S O)
      → List (Middleware S O)
      → Computation S O
      → Computation S O
  chain wrap [] next = next
  chain wrap (m ∷ ms) next = chain wrap ms (wrap m next)

  -- `execute`, by whether there is a recorder, with its correlation id.
  unfoldable pub execute : Option ℕ → List (Middleware S O) → Computation S O → Computation S O
  unfolding chain
  execute none ms final = chain frame (reverse ms) final
  execute (some cid) ms final = chain (traced_frame cid) (reverse ms) final

  -- `handler.execute(input_dto)`.
  abbrev pub handle : Handler S O → Computation S O
  handle h w = let r = h.execute w.user in (r.0, record w { user = r.1 })

  abbrev pub dispatch_span : Handler S O → String → ℕ → Span
  dispatch_span h cat cid = record {
    lane = dispatch_lane;
    name = h.class_name;
    cat = cat;
    cid = cid;
  }

  unfoldable pub dispatch_traced : List (Middleware S O) → Handler S O → String → Computation S O
  unfolding execute
  dispatch_traced ms h msg_type w =
      let w' = next_cid w in
      let cid = w'.last_cid in
      let final : Computation S O = spanned (dispatch_span h "handler" cid) (handle h) in
      spanned (dispatch_span h msg_type cid) (execute (some cid) ms final) w'

  abbrev pub msg_type : Handler S O → String
  msg_type h = if mentions "Query" h.class_name then "query" else "command"

  -- `dispatch`, behind `container.resolve`, by whether there is a recorder. An exception of the
  -- pipeline is logged and raised again.
  unfoldable pub dispatch :
      (recorder : Bool) → List (Middleware S O) → Handler S O → Computation S O
  unfolding dispatch_traced
  dispatch false ms h w = execute none ms (handle h) w
  dispatch true ms h w = dispatch_traced ms h (msg_type h) w

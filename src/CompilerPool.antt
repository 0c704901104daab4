-- ===== src/CompilerPool.antt =====
-- The compiler pool of src/runtime/compiler-pool.ts as steps: a call of `check` or `close`, and what
-- workers, timers and signals report. A worker is its number; `answers` holds how each dispatched
-- request was resolved or rejected. The digest of the declarations is a parameter.
pub mod Cache
pub mod Workers
pub mod Invariant
pub mod Events
pub mod Requests
pub mod Closing
pub mod History
mod Tests
use kiro_fabric.Prelude.{
  same_text, ℕ, ◌+◌, ◌-◌, ◌*◌, Bool, true, false, ◌&&◌, ◌||◌, not, ltb, leb, ◌==◌, if◌then◌else◌,
  List, [], ◌∷◌, ◌++◌, Option, none, some, length, Text, Outcome, ok, err,
}

pub record TypeError : Type 0 where
  pub line : ℕ
  pub column : ℕ
  pub message : Text
  pub code : Option ℕ
  pub hint : Option Text

pub data CacheUse : Type 0 where
  hit miss bypass : CacheUse

pub data WorkerUse : Type 0 where
  cold warm custom : WorkerUse

pub record TypeCheckResult : Type 0 where
  pub compile_cache : Option CacheUse
  pub compile_worker : Option WorkerUse
  pub errors : List TypeError
  pub javascript : Option Text
  pub source_map : Option Text

pub record CachedCompilation : Type 0 where
  pub key : Text
  pub javascript : Text
  pub source_map : Option Text
  pub chars : ℕ

pub record Pending : Type 0 where
  pub request : ℕ
  pub cache_key : Option Text
  pub worker_use : WorkerUse

pub record Worker : Type 0 where
  pub worker : ℕ
  pub uses : ℕ
  pub is_poolable : Bool
  pub pending : Option Pending

pub data Failure : Type 0 where
  failed worker_failed exited aborted timed_out not_posted pool_closed : Failure

-- What `complete` does to a request: it resolves or rejects its promise.
abbrev pub Answer : Type 0
Answer = ℕ × Outcome Failure TypeCheckResult

-- A worker whose termination has begun, with the calls of `complete` that wait for its end.
pub record Retiring : Type 0 where
  pub worker : ℕ
  pub due : List Answer

pub record Pool : Type 0 where
  pub max_workers : ℕ
  pub workers : List Worker
  pub retiring : List Retiring
  pub idle : Option ℕ
  pub cache : List CachedCompilation
  pub cached_chars : ℕ
  pub last_declarations : Option (Text × Text)
  pub next_id : ℕ
  pub next_worker : ℕ
  pub is_closed : Bool
  pub answers : List Answer

-- The constructor; the limit is a natural number.
unfoldable pub make_pool : ℕ → Option Pool
make_pool max_workers =
    if ltb max_workers 1 || ltb 64 max_workers
    then none
    else some (record {
      max_workers = max_workers;
      workers = [];
      retiring = [];
      idle = none;
      cache = [];
      cached_chars = 0;
      last_declarations = none;
      next_id = 0;
      next_worker = 0;
      is_closed = false;
      answers = [];
    })

abbrev pub worker_max_uses : ℕ
worker_max_uses = 250

abbrev pub max_cache_entries : ℕ
max_cache_entries = 32

abbrev pub max_cache_chars : ℕ
max_cache_chars = 2 * 1024 * 1024

abbrev pub length_of : Option Text → ℕ
length_of none = 0
length_of (some text) = length text

unfoldable pub cached : Text → List CachedCompilation → Option CachedCompilation
cached key [] = none
cached key (c ∷ cs) = if same_text key c.key then some c else cached key cs

unfoldable pub uncached : Text → List CachedCompilation → List CachedCompilation
uncached key [] = []
uncached key (c ∷ cs) = if same_text key c.key then cs else c ∷ uncached key cs

-- The loop of `#remember`, which removes the oldest entry while there are too many or too large ones.
unfoldable pub trim : List CachedCompilation → ℕ → List CachedCompilation × ℕ
trim [] chars = ([], chars)
trim (c ∷ cs) chars =
    if ltb max_cache_entries (length (c ∷ cs)) || ltb max_cache_chars chars
    then trim cs (chars - c.chars)
    else (c ∷ cs, chars)

-- The entries and their size without a previous one of this key.
unfoldable pub forget : Text → List CachedCompilation → ℕ → List CachedCompilation × ℕ
forget key cs chars = elim (cached key cs) [
  | none ↦ (cs, chars)
  | some previous ↦ (uncached key cs, chars - previous.chars)
]

-- An output of the compiler, put at the end of the cache.
unfoldable pub add_cached : CachedCompilation → Pool → Pool
add_cached c p =
    let kept = forget c.key p.cache p.cached_chars in
    let trimmed = trim (kept.0 ++ c ∷ []) (kept.1 + c.chars) in
    record p { cache = trimmed.0; cached_chars = trimmed.1 }

unfoldable pub remember : Option Text → TypeCheckResult → Pool → Pool
remember none result p = p
remember (some key) result p = elim result.javascript [
  | none ↦ p
  | some javascript ↦
      let chars = length key + length javascript + length_of result.source_map in
      if ltb 0 (length result.errors) || ltb max_cache_chars chars
      then p
      else add_cached
          (record {
            key = key;
            javascript = javascript;
            source_map = result.source_map;
            chars = chars;
          })
          p
]

unfoldable pub find : ℕ → List Worker → Option Worker
find i [] = none
find i (w ∷ ws) = if i == w.worker then some w else find i ws

unfoldable pub update : Worker → List Worker → List Worker
update v [] = []
update v (w ∷ ws) = if v.worker == w.worker then v ∷ ws else w ∷ update v ws

unfoldable pub delete : ℕ → List Worker → List Worker
delete i [] = []
delete i (w ∷ ws) = if i == w.worker then ws else w ∷ delete i ws

abbrev pub detached : ℕ → Option ℕ → Option ℕ
detached i none = none
detached i (some j) = if i == j then none else some j

-- `#terminate`. A worker that is no more among the workers has been terminated before.
unfoldable pub terminate : ℕ → Pool → Pool
terminate i p = elim (find i p.workers) [
  | none ↦ record p { idle = detached i p.idle }
  | some w ↦ record p {
    idle = detached i p.idle;
    workers = delete i p.workers;
    retiring = p.retiring ++ (record { worker = i; due = [] }) ∷ [];
  }
]

-- `.then(complete)` on the termination of a worker.
unfoldable pub attach : ℕ → Answer → List Retiring → List Retiring
attach i answer [] = []
attach i answer (r ∷ rs) =
    if i == r.worker then (record r { due = r.due ++ answer ∷ [] }) ∷ rs else r ∷ attach i answer rs

-- `#terminate(state).then(complete)`: the request is answered when the termination has ended.
unfoldable pub retire : ℕ → Answer → Pool → Pool
retire i answer p = let q = terminate i p in record q { retiring = attach i answer q.retiring }

-- The first steps of `finish`: the worker has no pending request any more.
abbrev pub settle : Worker → Pool → Pool
settle w p = record p { workers = update (record w { pending = none }) p.workers }

unfoldable pub finish_failed : Worker → Pending → Failure → Pool → Pool
finish_failed w pending failure p = retire w.worker (pending.request, err failure) (settle w p)

abbrev pub cache_use : Option Text → CacheUse
cache_use none = bypass
cache_use (some key) = miss

unfoldable pub finish_result : Worker → Pending → TypeCheckResult → Pool → Pool
finish_result w pending result p =
    let answer : TypeCheckResult = record result {
      compile_cache = some (cache_use pending.cache_key);
      compile_worker = some pending.worker_use;
    } in
    let used : Worker = record w { uses = w.uses + 1 } in
    let q = remember pending.cache_key result (settle used p) in
    let can_idle : Bool = elim q.idle [ none ↦ true | some j ↦ false ] in
    if not q.is_closed && can_idle && w.is_poolable && ltb (w.uses + 1) worker_max_uses
    then record q { idle = some w.worker; answers = q.answers ++ (pending.request, ok answer) ∷ [] }
    else retire w.worker (pending.request, ok answer) q

-- `state.pending?.finish(error)`.
abbrev pub fail_pending : Worker → Failure → Pool → Pool
fail_pending w failure p = elim w.pending [
  | none ↦ p
  | some pending ↦ finish_failed w pending failure p
]

pub data Response : Type 0 where
  result_of : TypeCheckResult → Response
  error_of : Response

unfoldable pub on_message : (i id : ℕ) → Response → Pool → Pool
on_message i id response p = elim (find i p.workers) [
  | none ↦ p
  | some w ↦ elim w.pending [
    | none ↦ p
    | some pending ↦
        if pending.request == id
        then elim response [
          | result_of r ↦ finish_result w pending r p
          | error_of ↦ finish_failed w pending failed p
        ]
        else p
  ]
]

unfoldable pub on_error : ℕ → Pool → Pool
on_error i p = elim (find i p.workers) [
  | none ↦ p
  | some w ↦ terminate i (fail_pending w worker_failed p)
]

unfoldable pub on_exit : ℕ → Pool → Pool
on_exit i p = elim (find i p.workers) [
  | none ↦ p
  | some w ↦
      let q : Pool = record p { idle = detached i p.idle } in
      let r = fail_pending w exited q in record r { workers = delete i r.workers }
]

-- A timeout or an abort of the request that is pending at a worker; a settled one has none.
unfoldable pub on_stop : (i id : ℕ) → Failure → Pool → Pool
on_stop i id failure p = elim (find i p.workers) [
  | none ↦ p
  | some w ↦ elim w.pending [
    | none ↦ p
    | some pending ↦ if pending.request == id then finish_failed w pending failure p else p
  ]
]

-- The timer of the idle worker.
unfoldable pub on_idle_timer : Pool → Pool
on_idle_timer p = elim p.idle [ none ↦ p | some i ↦ terminate i p ]

unfoldable pub without : ℕ → List Retiring → List Retiring
without i [] = []
without i (r ∷ rs) = if i == r.worker then rs else r ∷ without i rs

-- The answers that wait for the end of a worker's termination.
unfoldable pub due_at : ℕ → List Retiring → List Answer
due_at i [] = []
due_at i (r ∷ rs) = if i == r.worker then r.due else due_at i rs

-- The termination of a worker has ended: it leaves `#retiring`, and what waited for it is completed.
unfoldable pub on_terminated : ℕ → Pool → Pool
on_terminated i p = record p {
  retiring = without i p.retiring;
  answers = p.answers ++ due_at i p.retiring;
}

unfoldable pub close_workers : List Worker → Pool → Pool
close_workers [] p = p
close_workers (w ∷ ws) p = close_workers ws (terminate w.worker (fail_pending w pool_closed p))

unfoldable pub close : Pool → Pool
close p =
    let q : Pool = record p { is_closed = true; cache = []; cached_chars = 0 } in
    if p.is_closed then q else close_workers p.workers q

pub record Request : Type 0 where
  pub code : Text
  pub declarations : Text
  pub is_custom : Bool
  pub is_aborted : Bool
  -- The new worker starts, if one is wanted; the message is posted.
  pub is_started : Bool
  pub is_posted : Bool

pub data Reply : Type 0 where
  closed already_aborted over_limit not_started : Reply
  served : TypeCheckResult → Reply
  dispatched : ℕ → Reply

module _ (digest : Text → Text) where
  -- `#declarationsDigest`, with the memory of the last declarations.
  unfoldable pub declarations_digest : Text → Pool → Pool × Text
  declarations_digest declarations p =
      let fresh : Pool × Text = (
        record p { last_declarations = some (declarations, digest declarations) },
        digest declarations,
      ) in
      elim p.last_declarations [
        | none ↦ fresh
        | some (text, known) ↦ if same_text text declarations then (p, known) else fresh
      ]

  unfoldable pub key_of : Request → Pool → Pool × Option Text
  key_of r p =
      let d = declarations_digest r.declarations p in
      if not r.is_custom && leb (length r.code + length r.declarations) max_cache_chars
      then (d.0, some (d.1 ++ 58 ∷ r.code))
      else (p, none)

  -- The worker takes the request; a message that is not posted fails it.
  abbrev pub post : Request → Worker → Pending → Pool → Pool × Reply
  post r w pending p = if r.is_posted then (p, dispatched pending.request) else (
    finish_failed (record w { pending = some pending }) pending not_posted p,
    dispatched pending.request,
  )

  unfoldable pub dispatch : Request → Option Text → Pool → Pool × Reply
  dispatch r key p =
      let q : Pool = record p { next_id = p.next_id + 1 } in
      let new_worker : WorkerUse → Pool × Reply = λ kind.
        let pending : Pending = record {
          request = p.next_id + 1;
          cache_key = key;
          worker_use = kind;
        } in
        let w : Worker = record {
          worker = p.next_worker;
          uses = 0;
          is_poolable = not r.is_custom;
          pending = some pending;
        } in
        if leb p.max_workers (length p.workers)
        then (p, over_limit)
        else if r.is_started
        then post r w pending
            (record q { workers = p.workers ++ w ∷ []; next_worker = p.next_worker + 1 })
        else (p, not_started) in
      if r.is_custom then new_worker custom else elim p.idle [
        | none ↦ new_worker cold
        | some i ↦ elim (find i p.workers) [
          | none ↦ new_worker cold
          | some w ↦
              let pending : Pending = record {
                request = p.next_id + 1;
                cache_key = key;
                worker_use = warm;
              } in
              post r w pending (record q {
                idle = none;
                workers = update (record w { pending = some pending }) p.workers;
              })
        ]
      ]

  unfoldable pub check : Request → Pool → Pool × Reply
  check r p =
      let keyed = key_of r p in
      let q = keyed.0 in
      let fresh = dispatch r keyed.1 q in
      if p.is_closed
      then (p, closed)
      else if r.is_aborted
      then (p, already_aborted)
      else elim keyed.1 [
        | none ↦ fresh
        | some key ↦ elim (cached key q.cache) [
          | none ↦ fresh
          | some c ↦ (
            record q { cache = uncached key q.cache ++ c ∷ [] },
            served (record {
              compile_cache = some hit;
              compile_worker = none;
              errors = [];
              javascript = some c.javascript;
              source_map = c.source_map;
            }),
          )
        ]
      ]

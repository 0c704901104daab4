-- ===== src/CompilerPool/Tests.antt =====
-- A small pool of src/runtime/compiler-pool.ts.
use kiro_fabric.Prelude.{same_text, true, false, ◌≡◌, refl, [], ◌∷◌, none, some, Text}
use kiro_fabric.CompilerPool.{
  Pool, TypeCheckResult, Request, timed_out, result_of, make_pool, check, close, on_message,
  on_stop, key_of, declarations_digest, dispatch, cached, find, finish_result, finish_failed,
  retire, update, delete, terminate, remember, add_cached, forget, trim, uncached,
}
use kiro_fabric.CompilerPool.Invariant.{IsValid}
use kiro_fabric.CompilerPool.Closing.{Closed}
use kiro_fabric.CompilerPool.History.{
  Reach, here, checks, replies, stops, Reach-Accounts, Reach-close,
}

abbrev new_pool : Pool
new_pool = record {
  max_workers = 2;
  workers = [];
  retiring = [];
  idle = none;
  cache = [];
  cached_chars = 0;
  last_declarations = none;
  next_id = 0;
  next_worker = 0;
  is_closed = false;
  answers = [];
}

made : make_pool 2 ≡ some new_pool
unfolding make_pool
made = refl

abbrev request_of : Text → Request
request_of code = record {
  code = code;
  declarations = 100 ∷ [];
  is_custom = false;
  is_aborted = false;
  is_started = true;
  is_posted = true;
}

abbrev compiled : TypeCheckResult
compiled = record {
  compile_cache = none;
  compile_worker = none;
  errors = [];
  javascript = some (106 ∷ []);
  source_map = none;
}

abbrev digest : Text → Text
digest text = text

abbrev first : Pool
first = (check digest (request_of (97 ∷ [])) new_pool).0

abbrev second : Pool
second = (check digest (request_of (98 ∷ [])) first).0

-- One request is answered, its worker waits, and the other one times out.
abbrev last : Pool
last = on_stop 1 2 timed_out (on_message 0 1 (result_of compiled) second)

abbrev history : Reach digest new_pool last
history = stops 1 2 timed_out (
    replies 0 1 (result_of compiled)
      (checks (request_of (98 ∷ [])) (checks (request_of (97 ∷ [])) here)))

Reach-Accounts_example : IsValid last
Reach-Accounts_example = Reach-Accounts digest 2 new_pool last made history

still_open : last.is_closed ≡ false
unfolding on_stop on_message check dispatch key_of declarations_digest cached find finish_result
    finish_failed retire update delete terminate remember add_cached forget trim uncached same_text
still_open = refl

Reach-close_example : Closed last (close last)
Reach-close_example = Reach-close digest 2 new_pool last made history still_open

-- ===== src/Counter.antt =====
-- internal/evaluator/env.go: the call counter's nesting guardrails. `evalDepth` is an int8 kept as its
-- two's complement below 256, `nested` a uint16. A maximum and a cost are not negative.
pub mod Balanced
mod Tests
use gnata.Base.{
  ℕ, ◌+◌, ◌-◌, ◌%◌, ◌≤◌, min, Bool, true, false, ◌&&◌, List, [], ◌∷◌, ◌++◌, Option, none, some, ltb,
  if◌then◌else◌,
}

-- The fields of `callCounter` that bound nesting.
pub record CallCounter : Type 0 where
  pub eval_depth : ℕ
  pub nested : ℕ

-- `maxNestedCalls`
abbrev pub max_nested_calls : ℕ
max_nested_calls = 1500

-- The guardrails' errors.
pub data Overflow : Type 0 where
  d3121 : Overflow
  u1001 : Overflow

-- `IncrEvalDepth`: the counter, with an error where the depth is exceeded.
pub incr_eval_depth : ℕ → CallCounter → Option Overflow × CallCounter
incr_eval_depth max_depth c =
    let depth = (c.eval_depth + 1) % 256 in
    if ltb depth 128 && ltb (min max_depth 126) depth
    then (some d3121, record c { eval_depth = (depth + 255) % 256 })
    else (none, record c { eval_depth = depth })

-- `DecrEvalDepth`
pub decr_eval_depth : CallCounter → CallCounter
decr_eval_depth c = record c { eval_depth = (c.eval_depth + 255) % 256 }

-- What an evaluation does with the counter: it is done, or it makes a call of $eval or a nested
-- call with a body, and goes on.
pub data Calls : Type 0 where
  done : Calls
  eval_call : ℕ → Calls → Calls → Calls
  nested_call : ℕ → Calls → Calls → Calls

-- An error, the counters at the entries of the calls' bodies, and the counter that is left.
pub record Run : Type 0 where
  pub error : Option Overflow
  pub entered : List CallCounter
  pub left : CallCounter

-- What follows a call: nothing behind an error.
abbrev pub go_on : Run → (CallCounter → Run) → Run
go_on r rest = elim r.error [
  | some e ↦ r
  | none ↦ record (rest r.left) { entered = r.entered ++ (rest r.left).entered }
]

-- The body of a call between its entry and its exit, which runs with an error too.
abbrev pub around : CallCounter → (CallCounter → CallCounter) → (CallCounter → Run) → Run
around c exit body = record {
  error = (body c).error;
  entered = c ∷ (body c).entered;
  left = exit (body c).left;
}

-- `callNested`
abbrev pub call_nested : ℕ → (CallCounter → Run) → CallCounter → Run
call_nested cost call c =
    if ltb max_nested_calls (c.nested + cost)
    then record { error = some u1001; entered = []; left = c }
    else around (record c { nested = (c.nested + cost) % 65536 })
        (λ d. record d { nested = (d.nested + 65536 - cost) % 65536 }) call

-- A call of $eval: IncrEvalDepth, and DecrEvalDepth deferred.
abbrev pub call_eval : ℕ → (CallCounter → Run) → CallCounter → Run
call_eval max_depth call c = elim (incr_eval_depth max_depth c).0 [
  | some e ↦ record { error = some e; entered = []; left = (incr_eval_depth max_depth c).1 }
  | none ↦ around (incr_eval_depth max_depth c).1 decr_eval_depth call
]

pub run_calls : Calls → CallCounter → Run
run_calls done c = record { error = none; entered = []; left = c }
run_calls (eval_call max_depth body rest) c =
    go_on (call_eval max_depth (run_calls body) c) (run_calls rest)
run_calls (nested_call cost body rest) c =
    go_on (call_nested cost (run_calls body) c) (run_calls rest)

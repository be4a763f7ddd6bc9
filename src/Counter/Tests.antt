-- ===== src/Counter/Tests.antt =====
-- Runs of the guardrails, and their theorem at nested calls that meet them.
use gnata.Base.{◌≡◌, refl, some, arith}
use gnata.Counter.{
  CallCounter, Calls, done, eval_call, nested_call, run_calls, u1001, incr_eval_depth,
  decr_eval_depth, d3121,
}
use gnata.Counter.Balanced.{IsBalanced, run_calls-IsBalanced}

abbrev fresh_counter : CallCounter
fresh_counter = record { eval_depth = 0; nested = 0 }

-- a call within the budget, in whose body another one is refused
abbrev deep_calls : Calls
deep_calls =
    eval_call 10 done (nested_call 1000 (nested_call 600 done done) (nested_call 1 done done))

deep_error : (run_calls deep_calls fresh_counter).error ≡ some u1001
unfolding run_calls incr_eval_depth decr_eval_depth
deep_error = refl

eval_error : (run_calls (eval_call 1 (eval_call 1 done done) done) fresh_counter).error ≡ some d3121
unfolding run_calls incr_eval_depth decr_eval_depth
eval_error = refl

run_calls-IsBalanced_example : IsBalanced fresh_counter (run_calls deep_calls fresh_counter)
run_calls-IsBalanced_example =
    run_calls-IsBalanced deep_calls fresh_counter (omega arith, omega arith)

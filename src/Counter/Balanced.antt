-- ===== src/Counter/Balanced.antt =====
-- The call counter through trees of calls: `callNested`, `IncrEvalDepth` and `DecrEvalDepth`.
use gnata.Base.{
  ℕ, ◌+◌, ◌-◌, ◌%◌, ◌≤◌, ◌≡◌, ◌⊎◌, refl, sym, ap, subst, ◌∙◌, inl, inr, ◌&&◌, List, [], ◌∷◌, ◌++◌,
  none, some, ltb, min, arith, Bool-cases, Option-cases,
}
use gnata.Counter.{
  CallCounter, max_nested_calls, d3121, incr_eval_depth, decr_eval_depth, Calls, done, eval_call,
  nested_call, Run, go_on, around, call_nested, call_eval, run_calls,
}

abbrev pub IsBounded : CallCounter → Type 0
IsBounded c = (c.nested ≤ max_nested_calls) × (c.eval_depth ≤ 126)

abbrev pub AreBounded : List CallCounter → Type 0
AreBounded [] = Unit
AreBounded (c ∷ cs) = IsBounded c × AreBounded cs

-- A run from `c` that leaves `c`.
abbrev pub IsBalanced : CallCounter → Run → Type 0
IsBalanced c r = (r.left ≡ c) × AreBounded r.entered

AreBounded-append :
    (cs ds : List CallCounter) → AreBounded cs → AreBounded ds → AreBounded (cs ++ ds)
AreBounded-append [] ds h k = k
AreBounded-append (c ∷ cs) ds (h, hs) k = (h, AreBounded-append cs ds hs k)

go_on-IsBalanced :
    (c : CallCounter) (r : Run) (rest : CallCounter → Run)
    → IsBalanced c r
    → IsBalanced c (rest c)
    → IsBalanced c (go_on r rest)
go_on-IsBalanced c r rest (e, h) k = elim (Option-cases r.error) [
  | inr (x, q) ↦ rw q (e, h)
  | inl q ↦
      (let (f, g) : IsBalanced c (rest r.left) = subst (λ d. IsBalanced c (rest d)) (sym e) k in
        rw q (f, AreBounded-append r.entered (rest r.left).entered h g))
]

around-IsBalanced :
    (c d : CallCounter) (exit : CallCounter → CallCounter) (body : CallCounter → Run)
    → IsBounded d
    → exit d ≡ c
    → IsBalanced d (body d)
    → IsBalanced c (around d exit body)
around-IsBalanced c d exit body b e (l, h) = (ap exit l ∙ e, (b, h))

call_nested-IsBalanced :
    (cost : ℕ) (call : CallCounter → Run) (c : CallCounter)
    → IsBounded c
    → ((d : CallCounter) → IsBounded d → IsBalanced d (call d))
    → IsBalanced c (call_nested cost call c)
call_nested-IsBalanced cost call c b f =
    elim (Bool-cases (ltb max_nested_calls (c.nested + cost))) [
      | inl e ↦ rw e (refl, tt)
      | inr e ↦
          (let fits : c.nested + cost ≤ 1500 = ground (arith, e) in
            let d = record c { nested = (c.nested + cost) % 65536 } in
            let bounded : IsBounded d = (omega arith, b.1) in
            let back : ((c.nested + cost) % 65536 + 65536 - cost) % 65536 ≡ c.nested =
              omega arith in
            rw e (
              around-IsBalanced c d (λ d. record d { nested = (d.nested + 65536 - cost) % 65536 })
                call bounded (λ i. record c { nested = back i }) (f d bounded)))
    ]

-- IncrEvalDepth refuses and leaves the counter, or DecrEvalDepth takes it back.
incr_eval_depth-cases :
    (max_depth : ℕ) (c : CallCounter)
    → IsBounded c
    → (incr_eval_depth max_depth c ≡ (some d3121, c))
      ⊎ ((d : CallCounter) × (incr_eval_depth max_depth c ≡ (none, d))
          × IsBounded d
          × (decr_eval_depth d ≡ c))
unfolding incr_eval_depth decr_eval_depth
incr_eval_depth-cases max_depth c b =
    (let depth = (c.eval_depth + 1) % 256 in
      let back : (depth + 255) % 256 ≡ c.eval_depth = omega (arith, b.1) in
      let restored : record c { eval_depth = (depth + 255) % 256 } ≡ c =
        λ i. record c { eval_depth = back i } in
      elim (Bool-cases (ltb depth 128 && ltb (min max_depth 126) depth)) [
        | inl e ↦ inl (rw (e, incr_eval_depth) (λ i. (some d3121, restored i)))
        | inr e ↦ inr (
          record c { eval_depth = depth },
          rw (e, incr_eval_depth) refl,
          (b.0, ground (arith, e, b.1)),
          restored,
        )
      ])

call_eval-IsBalanced :
    (max_depth : ℕ) (call : CallCounter → Run) (c : CallCounter)
    → IsBounded c
    → ((d : CallCounter) → IsBounded d → IsBalanced d (call d))
    → IsBalanced c (call_eval max_depth call c)
call_eval-IsBalanced max_depth call c b f = elim (incr_eval_depth-cases max_depth c b) [
  | inl q ↦ rw (ap (λ p. p.0) q, call_eval) (ap (λ p. p.1) q, tt)
  | inr (d, q, bounded, restored) ↦
      rw (ap (λ p. p.0) q, ap (λ p. p.1) q, call_eval)
        (around-IsBalanced c d decr_eval_depth call bounded restored (f d bounded))
]

-- Whatever calls of $eval and nested calls an evaluation makes, with any maxima and costs, from a
-- counter within the guardrails: it leaves the counter as it was, with an error or without, and
-- enters no body with more than 1500 nested calls or an $eval depth above 126, so that neither the
-- int8 nor the uint16 overflows.
pub run_calls-IsBalanced :
    (k : Calls) (c : CallCounter) → IsBounded c → IsBalanced c (run_calls k c)
unfolding run_calls
run_calls-IsBalanced done c b = (refl, tt)
run_calls-IsBalanced (eval_call max_depth body rest) c b =
    go_on-IsBalanced c (call_eval max_depth (run_calls body) c) (run_calls rest)
      (call_eval-IsBalanced max_depth (run_calls body) c b (λ d h. run_calls-IsBalanced body d h))
      (run_calls-IsBalanced rest c b)
run_calls-IsBalanced (nested_call cost body rest) c b =
    go_on-IsBalanced c (call_nested cost (run_calls body) c) (run_calls rest)
      (call_nested-IsBalanced cost (run_calls body) c b (λ d h. run_calls-IsBalanced body d h))
      (run_calls-IsBalanced rest c b)

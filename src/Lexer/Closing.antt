-- ===== src/Lexer/Closing.antt =====
-- internal/lexer/lexer.go: which `/` ends a regex literal.
use gnata.Base.{
  ltb, pos, true, ◌%◌, ℕ, zero, suc, ◌+◌, ◌-◌, ◌*◌, ◌/◌, ◌≤◌, ◌<◌, ◌≡◌, ◌≢◌, ◌⊎◌, inl, inr, refl,
  ap, sym, ◌∙◌, subst, false, Bytes, some, arith, length, get_or, ◌==◌, Bool-cases,
}
use gnata.Lexer.Regex.{
  regex_end, regex_end_from, ends_at, next_depth, opens, closes, backslashes, is_escaped_at,
  closing_slash,
}
use gnata.Lexer.Progress.Parts.{closing_slash-lt}

-- The byte at the `i`th place before `e`, counted from one.
abbrev pub byte_before : Bytes → ℕ → ℕ → ℕ
byte_before src e i = get_or src (e - suc i) 0

-- Of the bytes from `start` on, the last `k` before `e` are backslashes, and no more.
abbrev pub IsRun : Bytes → ℕ → ℕ → ℕ → Type 0
IsRun src start e k =
    (start + k ≤ e)
    × ((i : ℕ) → i < k → byte_before src e i ≡ b'\\')
    × ((start + k ≡ e) ⊎ (byte_before src e k ≢ b'\\'))

-- A `/` that no backslash escapes: it stands inside the source, not before `start`, and an even
-- number of backslashes stands before it.
abbrev pub EndsRegex : Bytes → ℕ → ℕ → Type 0
EndsRegex src start e =
    (start ≤ e) × (e < length src) × (get_or src e 0 ≡ b'/') × ((k : ℕ) × IsRun src start e (2 * k))

backslashes-IsRun :
    (src : Bytes) (start n : ℕ) → IsRun src start (start + n) (backslashes src start n)
unfolding backslashes
backslashes-IsRun src start zero = (omega arith, (λ i h. absurd (omega arith)), inl refl)
backslashes-IsRun src start (suc n) = elim (Bool-cases (get_or src (start + n) 0 == b'\\')) [
  | inr e ↦ rw e (
      let here : start + suc n - 1 ≡ start + n = omega arith in
      (
        omega arith,
        (λ i h. absurd (omega arith)),
        inr (λ q. other (ap (λ (p : ℕ). get_or src p 0) (sym here) ∙ q) e),
      ))
  | inl e ↦ rw e (
      let (le, all, end) = backslashes-IsRun src start n in
      let k = backslashes src start n in (omega arith, each all (ground arith), last k end))
]
  where
    other : get_or src (start + n) 0 ≡ b'\\' → (get_or src (start + n) 0 == b'\\') ≡ false → ⊥
    other q e = ground arith

    shift : (i : ℕ) → byte_before src (start + n) i ≡ byte_before src (start + suc n) (suc i)
    shift i =
        let q : start + n - suc i ≡ start + suc n - suc (suc i) = omega arith in
        ap (λ (p : ℕ). get_or src p 0) q

    each :
        {k : ℕ}
        → ((i : ℕ) → i < k → byte_before src (start + n) i ≡ b'\\')
        → get_or src (start + n) 0 ≡ b'\\'
        → (i : ℕ) → i < suc k
        → byte_before src (start + suc n) i ≡ b'\\'
    each all q zero h =
        let here : start + suc n - 1 ≡ start + n = omega arith in
        ap (λ (p : ℕ). get_or src p 0) here ∙ q
    each all q (suc i) h = sym (shift i) ∙ all i (omega arith)

    last :
        (k : ℕ)
        → (start + k ≡ start + n) ⊎ (byte_before src (start + n) k ≢ b'\\')
        → (start + suc k ≡ start + suc n) ⊎ (byte_before src (start + suc n) (suc k) ≢ b'\\')
    last k (inl q) = inl (omega arith)
    last k (inr q) = inr (λ z. q (shift k ∙ z))

even-IsRun :
    (src : Bytes) (start e : ℕ)
    → start ≤ e
    → is_escaped_at src start e ≡ false
    → (k : ℕ) × IsRun src start e (2 * k)
unfolding is_escaped_at
even-IsRun src start e h n =
    let k = backslashes src start (e - start) in
    let even : k ≡ 2 * (k / 2) = ground arith in
    let place : start + (e - start) ≡ e = omega arith in
    (
      k / 2,
      subst (IsRun src start e) even
          (subst (λ p. IsRun src start p k) place (backslashes-IsRun src start (e - start))),
    )

-- The `/` that `Next` takes for the end of a regex whose pattern begins at `start` stands inside the
-- source, not before `start`, and the run of backslashes before it, which goes back to `start` at
-- most, has an even length.
pub closing_slash-EndsRegex :
    (src : Bytes) (start e : ℕ) → closing_slash src start ≡ some e → EndsRegex src start e
closing_slash-EndsRegex src start e h =
    let (a, b, c, d) = closing_slash-lt src start e h in (a, b, c, even-IsRun src start e a d)

-- A run has one length.
IsRun-unique :
    (src : Bytes) (start e j k : ℕ) → IsRun src start e j → IsRun src start e k → j < k → ⊥
IsRun-unique src start e j k (a, b, inl q) (c, d, r) l = omega arith
IsRun-unique src start e j k (a, b, inr q) (c, d, r) l = q (d j l)

-- Behind an even run a byte is not escaped, and behind an odd one it is.
is_escaped_at-IsRun :
    (src : Bytes) (start e k : ℕ)
    → start ≤ e
    → IsRun src start e k
    → is_escaped_at src start e ≡ (k % 2 == 1)
unfolding is_escaped_at
is_escaped_at-IsRun src start e k h r =
    let n = backslashes src start (e - start) in
    let place : start + (e - start) ≡ e = omega arith in
    let counted =
      subst (λ p. IsRun src start p n) place (backslashes-IsRun src start (e - start)) in
    let same : n ≡ k = elim (Bool-cases (ltb n k)) [
      | inl l ↦ absurd (IsRun-unique src start e n k counted r (ground arith))
      | inr l ↦ elim (Bool-cases (ltb k n)) [
        | inl m ↦ absurd (IsRun-unique src start e k n r counted (ground arith))
        | inr m ↦ ground arith
      ]
    ] in
    ap (λ m. m % 2 == 1) same

-- A byte that does not end a regex without brackets: no bracket, and no `/` but an escaped one.
abbrev pub IsInner : Bytes → ℕ → ℕ → Type 0
IsInner src start p =
    (opens (get_or src p 0) ≡ false)
    × (closes (get_or src p 0) ≡ false)
    × ((get_or src p 0 ≢ b'/') ⊎ ((k : ℕ) × IsRun src start p (suc (2 * k))))

inner-stays :
    (src : Bytes) (start p : ℕ)
    → start ≤ p
    → IsInner src start p
    → (ends_at src start p (pos 0) ≡ false) × (next_depth src p (pos 0) ≡ pos 0)
inner-stays src start p h (o, c, inl n) =
    let no_slash : (get_or src p 0 == b'/') ≡ false = ground arith in
    (
      rw no_slash refl,
      rw (o, c)
          (elim (Bool-cases (get_or src (p - 1) 0 == b'\\')) [
            | inl e ↦ rw e refl
            | inr e ↦ rw e refl
          ]),
    )
inner-stays src start p h (o, c, inr (k, r)) =
    let odd : (suc (2 * k) % 2 == 1) ≡ true = ground arith in
    let escaped = is_escaped_at-IsRun src start p (suc (2 * k)) h r ∙ odd in
    (
      rw escaped
          (elim (Bool-cases (get_or src p 0 == b'/')) [ inl e ↦ rw e refl | inr e ↦ rw e refl ]),
      rw (o, c)
          (elim (Bool-cases (get_or src (p - 1) 0 == b'\\')) [
            | inl e ↦ rw e refl
            | inr e ↦ rw e refl
          ]),
    )

regex_end_from-first :
    (src : Bytes) (start e p n : ℕ)
    → EndsRegex src start e
    → start ≤ p
    → p ≤ e
    → e < p + n
    → ((i : ℕ) → start ≤ i → i < e → IsInner src start i)
    → regex_end_from src start p (pos 0) n ≡ some e
unfolding regex_end_from
regex_end_from-first src start e p zero h a b c inner = absurd (omega arith)
regex_end_from-first src start e p (suc n) (h, h1, slash, (k, run)) a b c inner =
    elim (Bool-cases (p == e)) [
      | inl q ↦
          (let same : p ≡ e = ground arith in
            let even : (2 * k % 2 == 1) ≡ false = ground arith in
            let free = is_escaped_at-IsRun src start e (2 * k) h run ∙ even in
            let there : (get_or src e 0 == b'/') ≡ true = ground arith in
            rw same (rw (there, free) refl))
      | inr q ↦
          (let (stays, depth) = inner-stays src start p a (inner p a (ground arith)) in
            rw (stays, depth)
              (regex_end_from-first src start e (p + 1) n (h, h1, slash, (k, run)) (omega arith)
                (ground arith) (omega arith) inner))
    ]

-- A pattern without brackets, in which every `/` stands behind an odd run of backslashes, ends at
-- the first `/` behind an even run: `Next` takes it for the end of the regex.
pub closing_slash-first :
    (src : Bytes) (start e : ℕ)
    → EndsRegex src start e
    → ((i : ℕ) → start ≤ i → i < e → IsInner src start i)
    → closing_slash src start ≡ some e
unfolding closing_slash regex_end
closing_slash-first src start e h inner =
    let (a, b, _, _) = h in
    rw
      (
        regex_end_from-first src start e start (length src - start) h (omega arith) a (omega arith)
            inner,
        closing_slash,
      )
      refl

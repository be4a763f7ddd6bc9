-- ===== src/Url/Fuel.antt =====
-- The fuel of the decoder is enough.
use gnata.Base.{
  ℕ, zero, suc, ◌≡◌, ◌≢◌, ◌⊎◌, ◌≤◌, refl, ap, sym, true, [], ◌∷◌, Bytes, Option, none, some, ◌==◌,
  length, arith, Bool-cases, inl, inr,
}
use gnata.Url.{
  Decoded, malformed, ran_out, yields, parse_byte, is_kept, add_byte, take_byte, take_run,
  decode_run, valid_from, put_front, behind_run, decode_from, decode_uri,
}

-- What is left behind a run: fewer bytes than `n`, or an escape with fewer behind it.
abbrev IsLeft : ℕ → Bytes → Type 0
IsLeft n rest =
    (length rest ≤ n)
    ⊎ ((p : ℕ) × (a : ℕ) × (b : ℕ) × (t : Bytes) × (rest ≡ p ∷ a ∷ b ∷ t)
        × ((p == b'%') ≡ true)
        × (length t ≤ n))

abbrev Leaves : ℕ → Option (Bytes × Bytes) → Type 0
Leaves n none = Unit
Leaves n (some (run, rest)) = IsLeft n rest

abbrev IsBounded : ℕ → Option (Bytes × Bytes) → Type 0
IsBounded n none = Unit
IsBounded n (some (run, rest)) = length rest ≤ n

IsBounded-add_byte :
    (n m c : ℕ) (o : Option (Bytes × Bytes)) → n ≤ m → IsBounded n o → IsBounded m (add_byte c o)
IsBounded-add_byte n m c none h l = tt
IsBounded-add_byte n m c (some (run, rest)) h l = omega arith

take_byte-IsBounded :
    (reserved : Bytes) (o : Option ℕ) (s : Bytes) (run : Option (Bytes × Bytes)) (n : ℕ)
    → n ≤ length s
    → IsBounded n run
    → IsBounded (length s) (take_byte reserved o s run)
take_byte-IsBounded reserved none s run n h l = tt
take_byte-IsBounded reserved (some c) s run n h l = elim (Bool-cases (is_kept reserved c)) [
  | inl k ↦ rw k (omega arith)
  | inr k ↦ rw k (IsBounded-add_byte n (length s) c run h l)
]

take_run-IsBounded : (reserved s : Bytes) → IsBounded (length s) (take_run reserved s)
unfolding take_run
take_run-IsBounded reserved [] = omega arith
take_run-IsBounded reserved (p ∷ []) = elim (Bool-cases (p == b'%')) [
  | inl e ↦ rw e tt
  | inr e ↦ rw e (omega arith)
]
take_run-IsBounded reserved (p ∷ a ∷ []) = elim (Bool-cases (p == b'%')) [
  | inl e ↦ rw e tt
  | inr e ↦ rw e (omega arith)
]
take_run-IsBounded reserved (p ∷ a ∷ b ∷ s) = elim (Bool-cases (p == b'%')) [
  | inr e ↦ rw e (omega arith)
  | inl e ↦ rw e (
      take_byte-IsBounded reserved (parse_byte a b) (p ∷ a ∷ b ∷ s) (take_run reserved s) (length s)
        (omega arith) (take_run-IsBounded reserved s))
]

Leaves-add_byte :
    (n m c : ℕ) (o : Option (Bytes × Bytes)) → n ≤ m → IsBounded n o → Leaves m (add_byte c o)
Leaves-add_byte n m c none h l = tt
Leaves-add_byte n m c (some (run, rest)) h l = inl (omega arith)

take_byte-Leaves :
    (reserved : Bytes) (o : Option ℕ) (p a b : ℕ) (s : Bytes)
    → (p == b'%') ≡ true
    → Leaves (length (a ∷ b ∷ s)) (take_byte reserved o (p ∷ a ∷ b ∷ s) (take_run reserved s))
take_byte-Leaves reserved none p a b s h = tt
take_byte-Leaves reserved (some c) p a b s h = elim (Bool-cases (is_kept reserved c)) [
  | inl k ↦ rw k (inr (p, a, b, s, refl, h, omega arith))
  | inr k ↦ rw k (
      Leaves-add_byte (length s) (length (a ∷ b ∷ s)) c (take_run reserved s) (omega arith)
        (take_run-IsBounded reserved s))
]

take_run-Leaves :
    (reserved : Bytes) (p : ℕ) (s : Bytes)
    → (p == b'%') ≡ true
    → Leaves (length s) (take_run reserved (p ∷ s))
unfolding take_run
take_run-Leaves reserved p [] h = rw h tt
take_run-Leaves reserved p (a ∷ []) h = rw h tt
take_run-Leaves reserved p (a ∷ b ∷ s) h =
    rw h (take_byte-Leaves reserved (parse_byte a b) p a b s h)

-- Two decoders that agree on the texts of so many bytes.
abbrev Agree : ℕ → (Bytes → Decoded) → (Bytes → Decoded) → Type 0
Agree n f g = (t : Bytes) → length t ≤ n → f t ≡ g t

behind_run-Agree :
    (n : ℕ) (f g : Bytes → Decoded) (rest : Bytes)
    → Agree n f g
    → length rest ≤ n
    → behind_run f rest ≡ behind_run g rest
behind_run-Agree n f g [] h l = h [] l
behind_run-Agree n f g (p ∷ []) h l = h (p ∷ []) l
behind_run-Agree n f g (p ∷ a ∷ []) h l = h (p ∷ a ∷ []) l
behind_run-Agree n f g (p ∷ a ∷ b ∷ t) h l = rw (h (p ∷ a ∷ b ∷ t) l, h t (omega arith)) refl

behind_run-IsLeft :
    (n : ℕ) (f g : Bytes → Decoded) (rest : Bytes)
    → Agree n f g
    → IsLeft n rest
    → behind_run f rest ≡ behind_run g rest
behind_run-IsLeft n f g rest h (inl l) = behind_run-Agree n f g rest h l
behind_run-IsLeft n f g rest h (inr (p, a, b, t, e, q, l)) = rw (e, q, h t l) refl

decode_run-Leaves :
    (n : ℕ) (f g : Bytes → Decoded) (o : Option (Bytes × Bytes))
    → Agree n f g
    → Leaves n o
    → decode_run f o ≡ decode_run g o
decode_run-Leaves n f g none h l = refl
decode_run-Leaves n f g (some (run, rest)) h l = elim (Bool-cases (valid_from 0 run)) [
  | inl v ↦ rw (v, decode_run) (ap (put_front run) (behind_run-IsLeft n f g rest h l))
  | inr v ↦ rw (v, decode_run) refl
]

decode_from-Agree :
    (fuel more : ℕ) (reserved : Bytes)
    → fuel ≤ more
    → Agree fuel (decode_from fuel reserved) (decode_from more reserved)
unfolding decode_from
decode_from-Agree zero zero reserved h t l = refl
decode_from-Agree zero (suc more) reserved h [] l = refl
decode_from-Agree zero (suc more) reserved h (c ∷ t) l = absurd (omega arith)
decode_from-Agree (suc fuel) zero reserved h t l = absurd (omega arith)
decode_from-Agree (suc fuel) (suc more) reserved h [] l = refl
decode_from-Agree (suc fuel) (suc more) reserved h (c ∷ t) l =
    let ih = decode_from-Agree fuel more reserved (omega arith) in
    elim (Bool-cases (c == b'%')) [
      | inr e ↦ rw (e, decode_from) (ap (put_front (c ∷ [])) (ih t (omega arith)))
      | inl e ↦
          rw (e, decode_from)
            (let shrink : (s : Bytes) → length s ≤ length t → length s ≤ fuel =
                λ s k. omega arith in
              decode_run-Leaves (length t) (decode_from fuel reserved) (decode_from more reserved)
                (take_run reserved (c ∷ t)) (λ s k. ih s (shrink s k))
                (take_run-Leaves reserved c t e))
    ]

-- A decoder that ends on the texts of so many bytes.
abbrev HasEnded : Decoded → Type 0
HasEnded malformed = Unit
HasEnded ran_out = ⊥
HasEnded (yields s) = Unit

abbrev AllEnd : ℕ → (Bytes → Decoded) → Type 0
AllEnd n f = (t : Bytes) → length t ≤ n → HasEnded (f t)

HasEnded-put_front : (front : Bytes) (d : Decoded) → HasEnded d → HasEnded (put_front front d)
HasEnded-put_front front malformed h = tt
HasEnded-put_front front ran_out h = elim h [ ]
HasEnded-put_front front (yields s) h = tt

HasEnded-behind_run :
    (n : ℕ) (f : Bytes → Decoded) (rest : Bytes)
    → AllEnd n f
    → length rest ≤ n
    → HasEnded (behind_run f rest)
HasEnded-behind_run n f [] h l = h [] l
HasEnded-behind_run n f (p ∷ []) h l = h (p ∷ []) l
HasEnded-behind_run n f (p ∷ a ∷ []) h l = h (p ∷ a ∷ []) l
HasEnded-behind_run n f (p ∷ a ∷ b ∷ t) h l = elim (Bool-cases (p == b'%')) [
  | inl e ↦ rw e (HasEnded-put_front (p ∷ a ∷ b ∷ []) (f t) (h t (omega arith)))
  | inr e ↦ rw e (h (p ∷ a ∷ b ∷ t) l)
]

behind_run-HasEnded :
    (n : ℕ) (f : Bytes → Decoded) (rest : Bytes)
    → AllEnd n f
    → IsLeft n rest
    → HasEnded (behind_run f rest)
behind_run-HasEnded n f rest h (inl l) = HasEnded-behind_run n f rest h l
behind_run-HasEnded n f rest h (inr (p, a, b, t, e, q, l)) =
    rw (e, q) (HasEnded-put_front (p ∷ a ∷ b ∷ []) (f t) (h t l))

decode_run-HasEnded :
    (n : ℕ) (f : Bytes → Decoded) (o : Option (Bytes × Bytes))
    → AllEnd n f
    → Leaves n o
    → HasEnded (decode_run f o)
decode_run-HasEnded n f none h l = tt
decode_run-HasEnded n f (some (run, rest)) h l = elim (Bool-cases (valid_from 0 run)) [
  | inl v ↦
      rw (v, decode_run)
        (HasEnded-put_front run (behind_run f rest) (behind_run-HasEnded n f rest h l))
  | inr v ↦ rw (v, decode_run) tt
]

decode_from-HasEnded : (fuel : ℕ) (reserved : Bytes) → AllEnd fuel (decode_from fuel reserved)
unfolding decode_from
decode_from-HasEnded zero reserved [] l = tt
decode_from-HasEnded zero reserved (c ∷ t) l = absurd (omega arith)
decode_from-HasEnded (suc fuel) reserved [] l = tt
decode_from-HasEnded (suc fuel) reserved (c ∷ t) l =
    let ih = decode_from-HasEnded fuel reserved in
    elim (Bool-cases (c == b'%')) [
      | inr e ↦
          rw (e, decode_from)
            (HasEnded-put_front (c ∷ []) (decode_from fuel reserved t) (ih t (omega arith)))
      | inl e ↦
          rw (e, decode_from)
            (let shrink : (s : Bytes) → length s ≤ length t → length s ≤ fuel =
                λ s k. omega arith in
              decode_run-HasEnded (length t) (decode_from fuel reserved) (take_run reserved (c ∷ t))
                (λ s k. ih s (shrink s k)) (take_run-Leaves reserved c t e))
    ]

ended-ne-ran_out : (d : Decoded) → HasEnded d → d ≢ ran_out
ended-ne-ran_out malformed h e = cc
ended-ne-ran_out ran_out h e = elim h [ ]
ended-ne-ran_out (yields s) h e = cc

-- With at least as much fuel as there are bytes the decoder's fuel does not run out, so that its
-- loop has ended, and it yields what it yields with just as much fuel.
pub decode_from-fuel :
    (fuel : ℕ) (reserved s : Bytes)
    → length s ≤ fuel
    → (decode_from fuel reserved s ≡ decode_uri reserved s)
      × (decode_from fuel reserved s ≢ ran_out)
unfolding decode_uri
decode_from-fuel fuel reserved s h = (
  sym (decode_from-Agree (length s) fuel reserved h s (omega arith)),
  ended-ne-ran_out (decode_from fuel reserved s) (decode_from-HasEnded fuel reserved s h),
)

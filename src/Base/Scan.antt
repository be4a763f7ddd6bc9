-- ===== src/Base/Scan.antt =====
-- Scanning a byte string: how far a test holds, membership in a table, slices.
use Prim.Native.Nat.{ℕ, zero, suc, ◌-◌, ◌≤◌}
use mathlib.Core.Path.{◌≡◌, refl, ap}
use mathlib.Core.Bool.{Bool, true, false, ◌&&◌, ◌||◌}
use mathlib.Core.List.{[], ◌∷◌, ◌++◌}
use native.Mathlib.Omega.{arith}
use gnata.Base.Tests.{◌==◌, if◌then◌else◌}
use gnata.Base.Lists.{Bytes, length, take, drop}

-- `for i < len(s) && p(s[i]) { i++ }`: how many bytes it passes
abbrev pub count_while : (ℕ → Bool) → Bytes → ℕ
count_while p [] = 0
count_while p (c ∷ s) = if p c then suc (count_while p s) else 0

-- a `switch` over bytes
abbrev pub elem : ℕ → Bytes → Bool
elem c [] = false
elem c (x ∷ xs) = x == c || elem c xs

abbrev pub all : (ℕ → Bool) → Bytes → Bool
all p [] = true
all p (c ∷ s) = p c && all p s

-- `len(s) > 0 && s[0] == c`
abbrev pub starts_with : ℕ → Bytes → Bool
starts_with c [] = false
starts_with c (x ∷ s) = x == c

-- `s[i:j]`
abbrev pub slice : Bytes → ℕ → ℕ → Bytes
slice s i j = take (j - i) (drop i s)

pub count_while-le : (p : ℕ → Bool) (s : Bytes) → count_while p s ≤ length s
count_while-le p [] = omega arith
count_while-le p (c ∷ s) = ground (arith, count_while-le p s)

pub all-append : (p : ℕ → Bool) (a b : Bytes) → all p (a ++ b) ≡ (all p a && all p b)
all-append p [] b = refl
all-append p (c ∷ a) b = ground (arith, all-append p a b)

pub all-take-count_while : (p : ℕ → Bool) (s : Bytes) → all p (take (count_while p s) s) ≡ true
all-take-count_while p [] = refl
all-take-count_while p (c ∷ s) = ground (arith, all-take-count_while p s)

-- A test that holds on every byte of a table holds on each byte that is in it.
pub all-elem : (p : ℕ → Bool) (xs : Bytes) (c : ℕ) → all p xs ≡ true → elem c xs ≡ true → p c ≡ true
all-elem p [] c h m = cc
all-elem p (x ∷ xs) c h m = ground (arith, all-elem p xs c)

pub length-take_le : (n : ℕ) (s : Bytes) → n ≤ length s → length (take n s) ≡ n
length-take_le zero s h = refl
length-take_le (suc n) [] h = elim h [ ]
length-take_le (suc n) (c ∷ s) h = ap suc (length-take_le n s (omega arith))

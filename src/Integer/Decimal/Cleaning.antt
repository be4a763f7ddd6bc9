-- ===== src/Integer/Decimal/Cleaning.antt =====
-- What the parser drops: the separators that the formatter places.
use gnata.Base.{
  ℕ, zero, suc, ◌+◌, ◌-◌, ◌≡◌, refl, sym, ap, subst, ◌∙◌, inl, inr, Bool, true, false, ◌&&◌, ◌||◌,
  List, [], ◌∷◌, ◌++◌, some, arith, ltb, leb, ◌==◌, if◌then◌else◌, within, all, elem, length, map,
  Bool-cases, Option-cases, lookup, insert, nat_eq, lookup-insert, eq_of_some-eq-some, none-ne-some,
}
use gnata.Integer.{Runes}
use gnata.Integer.Decimal.{is_ascii_digit, is_picture_digit, Group, group_infos}
use gnata.Integer.Decimal.Grouping.{
  Positions, position_set, same_sep, regular, repeat_sep, place_seps, separators,
  apply_integer_grouping, keep, clean, apply_digit_family_rune,
}
use gnata.Integer.Decimal.Family.{IsFamily, IsFamily-cases, out_of_family}

-- A rune of a picture that is no digit and no minus sign.
abbrev pub IsSeparator : ℕ → Type 0
IsSeparator c = (is_picture_digit c ≡ false) × ((c == b'-') ≡ false)

abbrev HasSeparators : Positions → Type 0
HasSeparators m = (k c : ℕ) → lookup k m ≡ some c → IsSeparator c

abbrev AreSeparators : List Group → Type 0
AreSeparators [] = Unit
AreSeparators (g ∷ grps) = IsSeparator g.sep × AreSeparators grps

abbrev shift : ℕ → ℕ → ℕ
shift z c = if is_ascii_digit c then z + (c - b'0') else c

separator-ascii : (c : ℕ) → IsSeparator c → is_ascii_digit c ≡ false
unfolding is_picture_digit
separator-ascii c (h, _) = ground (arith, h)

shift-separator : (z c : ℕ) → IsSeparator c → shift z c ≡ c
shift-separator z c h = rw (separator-ascii c h) refl

pub keep-separator : (z c : ℕ) → IsFamily z → IsSeparator c → keep z c ≡ []
unfolding keep
keep-separator z c w h = rw (h.1, separator-ascii c h, out_of_family z c w h.0) ground arith

keep-shift : (z c : ℕ) → IsFamily z → is_ascii_digit c ≡ true → keep z (shift z c) ≡ c ∷ []
unfolding keep
keep-shift z c w h = elim (IsFamily-cases z w) [
  | inl e ↦
      (let own : z + (c - b'0') ≡ c = ground (arith, h, e) in
        let plain : (c == b'-') ≡ false = ground (arith, h) in rw (h, own, plain, h) refl)
  | inr le ↦
      (let d = z + (c - b'0') in
        let plain : (d == b'-') ≡ false = ground (arith, le) in
        let ascii : is_ascii_digit d ≡ false = ground (arith, le) in
        let other : (z == b'0') ≡ false = ground (arith, le) in
        let inside : within z (z + 9) d ≡ true = ground (arith, h) in
        let own : b'0' + (d - z) ≡ c = ground (arith, h) in
        rw (h, plain, ascii, other, inside, own) refl)
]

-- The parser reads the digits that were grouped.
clean-place_seps :
    (z : ℕ) (first : Bool) (m : Positions) (s : Runes)
    → IsFamily z
    → HasSeparators m
    → all is_ascii_digit s ≡ true
    → clean z (map (shift z) (place_seps first m s)) ≡ s
unfolding clean place_seps
clean-place_seps z first m [] w h k = refl
clean-place_seps z first m (c ∷ s) w h k =
    let digit : is_ascii_digit c ≡ true = ground (arith, k) in
    let kept = keep-shift z c w digit in
    let rest = ap (λ t. c ∷ t) (clean-place_seps z false m s w h (ground (arith, k))) in
    elim (Option-cases (lookup (length (c ∷ s)) m)) [
      | inl e ↦ rw (e, place_seps, kept) rest
      | inr (sep, e) ↦ elim (Bool-cases first) [
        | inl f ↦ rw (e, f, place_seps, kept) rest
        | inr f ↦
            (let sep_h = h (length (c ∷ s)) sep e in
              rw (e, f, place_seps, shift-separator z sep sep_h, keep-separator z sep w sep_h, kept)
                rest)
      ]
    ]

HasSeparators-insert :
    (at c : ℕ) (m : Positions) → IsSeparator c → HasSeparators m → HasSeparators (insert at c m)
HasSeparators-insert at c m h w k d e = elim (Bool-cases (at == k)) [
  | inl q ↦ subst IsSeparator (eq_of_some-eq-some (rw q at (sym (lookup-insert at k c m) ∙ e))) h
  | inr q ↦ w k d (rw q at (sym (lookup-insert at k c m) ∙ e))
]

HasSeparators-position_set :
    (grps : List Group) (m : Positions)
    → AreSeparators grps
    → HasSeparators m
    → HasSeparators (position_set grps m)
unfolding position_set
HasSeparators-position_set [] m h w = w
HasSeparators-position_set (g ∷ grps) m (h, hs) w =
    HasSeparators-position_set grps (insert g.pos_r g.sep m) hs
      (HasSeparators-insert g.pos_r g.sep m h w)

HasSeparators-repeat_sep :
    (fuel at interval max_len c : ℕ) (m : Positions)
    → IsSeparator c
    → HasSeparators m
    → HasSeparators (repeat_sep fuel at interval max_len c m)
unfolding repeat_sep
HasSeparators-repeat_sep zero at interval max_len c m h w = w
HasSeparators-repeat_sep (suc fuel) at interval max_len c m h w =
    elim (Bool-cases (leb at max_len)) [
      | inr e ↦ rw e w
      | inl e ↦ elim (Option-cases (lookup at m)) [
        | inl o ↦
            rw (e, o)
              (HasSeparators-repeat_sep fuel (at + interval) interval max_len c (insert at c m) h
                (HasSeparators-insert at c m h w))
        | inr (d, o) ↦
            rw (e, o) (HasSeparators-repeat_sep fuel (at + interval) interval max_len c m h w)
      ]
    ]

HasSeparators-separators :
    (len : ℕ) (grps : List Group) → AreSeparators grps → HasSeparators (separators len grps)
unfolding separators
HasSeparators-separators len [] h = λ k c e. absurd (none-ne-some (sym e))
HasSeparators-separators len (g ∷ grps) (h, hs) =
    (let first : HasSeparators [] = λ k c e. absurd (none-ne-some (sym e)) in
      let set = HasSeparators-position_set (g ∷ grps) [] (h, hs) first in
      elim (Bool-cases (same_sep g.sep grps && regular g.pos_r g.pos_r grps)) [
        | inl e ↦ rw e (
            HasSeparators-repeat_sep (suc (suc len)) g.pos_r g.pos_r (suc len) g.sep
              (position_set (g ∷ grps) []) h set)
        | inr e ↦ rw e set
      ])

AreSeparators-append :
    (grps : List Group) (g : Group)
    → AreSeparators grps
    → IsSeparator g.sep
    → AreSeparators (grps ++ g ∷ [])
AreSeparators-append [] g hs h = (h, tt)
AreSeparators-append (i ∷ grps) g (k, hs) h = (k, AreSeparators-append grps g hs h)

-- The groups of a picture without minus signs.
group_infos-AreSeparators :
    (picture : Runes) → elem b'-' picture ≡ false → AreSeparators (group_infos picture).0
unfolding group_infos
group_infos-AreSeparators [] h = tt
group_infos-AreSeparators (c ∷ picture) h =
    (let rest = group_infos-AreSeparators picture (ground (arith, h)) in
      let plain : (c == b'-') ≡ false = ground (arith, h) in
      elim (Bool-cases (c == b'#' || is_picture_digit c)) [
        | inl e ↦ rw e rest
        | inr e ↦ elim (Bool-cases (ltb 0 (group_infos picture).1)) [
          | inl q ↦
              rw (e, q)
                (AreSeparators-append (group_infos picture).0
                  (record { sep = c; pos_r = (group_infos picture).1 }) rest
                  (ground (arith, e), plain))
          | inr q ↦ rw (e, q) rest
        ]
      ])

-- The parser reads the digits that were grouped and written in a family.
pub clean-apply_integer_grouping :
    (z : ℕ) (picture digits : Runes)
    → IsFamily z
    → elem b'-' picture ≡ false
    → all is_ascii_digit digits ≡ true
    → clean z (apply_digit_family_rune (apply_integer_grouping digits (group_infos picture).0) z)
      ≡ digits
unfolding apply_digit_family_rune apply_integer_grouping
clean-apply_integer_grouping z picture digits w h k =
    let grps = (group_infos picture).0 in
    clean-place_seps z true (separators (length digits) grps) digits w
      (HasSeparators-separators (length digits) grps (group_infos-AreSeparators picture h)) k

-- In the ASCII family the digits stay as they are.
pub apply_digit_family_rune-ascii : (s : Runes) → apply_digit_family_rune s b'0' ≡ s
unfolding apply_digit_family_rune
apply_digit_family_rune-ascii [] = refl
apply_digit_family_rune-ascii (c ∷ s) = ground (arith, apply_digit_family_rune-ascii s)

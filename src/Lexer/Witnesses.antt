-- ===== src/Lexer/Witnesses.antt =====
-- The theorems on the lexer at inputs that meet their hypotheses.
use gnata.Base.{
  ℕ, zero, suc, inr, ◌≤◌, ◌<◌, ◌+◌, ◌≡◌, refl, inl, Option, some, true, false, Bytes, codes, ◌∷◌,
  ◌++◌, drop, take, arith,
}
use gnata.Lexer.Token.{TokenType, plain, token}
use gnata.Lexer.Regex.{closing_slash, regex_end, regex_end_from, is_escaped_at, backslashes}
use gnata.Lexer.Strings.{scan_string}
use gnata.Lexer.Numbers.{number_len}
use gnata.Lexer.Next.{next, scan, scan_at, scan_comment, comment_len}
use gnata.Lexer.Progress.Parts.{EndsWithin}
use gnata.Lexer.Closing.{
  EndsRegex, IsRun, IsInner, byte_before, closing_slash-first, closing_slash-EndsRegex,
}
use gnata.Lexer.Progress.Total.{next-EndsWithin}
use gnata.Lexer.RoundTrip.{quoted, scan_string-quoted}
use gnata.Lexer.Skipping.{CommentAt, scan-CommentAt}
use gnata.Lexer.Numerals.{IsNumeral, number_len-IsNumeral}

-- a stand-in for `strconv.ParseFloat` that keeps the text
abbrev keep_text : Bytes → Option Bytes
keep_text s = some s

abbrev source : Bytes
source = codes " /* c */ price >= 12.5e3"

next-EndsWithin_example : EndsWithin 8 24 (next keep_text true source 8)
next-EndsWithin_example = next-EndsWithin keep_text true source 8 (omega arith)

closing_slash-EndsRegex_example : EndsRegex (codes "/a\\/b/i") 1 5
unfolding closing_slash regex_end regex_end_from is_escaped_at backslashes
closing_slash-EndsRegex_example = closing_slash-EndsRegex (codes "/a\\/b/i") 1 5 refl

scan_string-quoted_example :
    scan_string {F = Bytes} b'"' 0 (quoted b'"' (codes "say \"hi\"") ++ b'"' ∷ codes " & x") 1
    ≡ (token (plain TokenType.string (codes "say \"hi\"") 0), 1 + 10 + 1)
scan_string-quoted_example =
    scan_string-quoted b'"' 0 (codes "say \"hi\"") (codes " & x") 1 (inl refl)

scan-CommentAt_example : CommentAt 1 (drop 1 source) 8
unfolding scan scan_at scan_comment comment_len
scan-CommentAt_example = scan-CommentAt keep_text false source 0 8 refl

number_len-IsNumeral_example : IsNumeral (take (number_len (codes "12.5e3x")) (codes "12.5e3x"))
number_len-IsNumeral_example = number_len-IsNumeral b'1' (codes "2.5e3x") refl

abbrev regex_source : Bytes
regex_source = codes "/a\\/b/i"

regex_source-EndsRegex : EndsRegex regex_source 1 5
regex_source-EndsRegex = (
  omega arith,
  omega arith,
  refl,
  (0, (omega arith, (λ i h. absurd (omega arith)), inr (λ e. omega arith))),
)

odd-IsRun : IsRun regex_source 1 3 1
odd-IsRun = (omega arith, one, inr (λ e. omega arith))
  where
    one : (i : ℕ) → i < 1 → byte_before regex_source 3 i ≡ b'\\'
    one zero h = refl
    one (suc i) h = absurd (omega arith)

regex_source-IsInner : (i : ℕ) → 1 ≤ i → i < 5 → IsInner regex_source 1 i
regex_source-IsInner zero l h = absurd (omega arith)
regex_source-IsInner (suc zero) l h = (refl, refl, inl (λ e. omega arith))
regex_source-IsInner (suc (suc zero)) l h = (refl, refl, inl (λ e. omega arith))
regex_source-IsInner (suc (suc (suc zero))) l h = (refl, refl, inr (0, odd-IsRun))
regex_source-IsInner (suc (suc (suc (suc zero)))) l h = (refl, refl, inl (λ e. omega arith))
regex_source-IsInner (suc (suc (suc (suc (suc i))))) l h = absurd (omega arith)

closing_slash-first_example : closing_slash regex_source 1 ≡ some 5
closing_slash-first_example =
    closing_slash-first regex_source 1 5 regex_source-EndsRegex regex_source-IsInner

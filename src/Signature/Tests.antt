-- ===== src/Signature/Tests.antt =====
-- Runs of `ParseSig`, and its soundness at a signature.
use gnata.Base.{◌≡◌, refl, [], ◌∷◌, true, false, Bytes, some, none, List, ◌++◌}
use gnata.Signature.{
  ParamSpec, fine, failed, content_not_valid, add_modifier, close_content, close_union, content_of,
  invalid_content, is_valid_sig_type, last_colon, make_spec, parse_content, parse_modifiers,
  parse_param, parse_params, parse_sig, parse_sig_content_type, parse_sig_union, parse_types,
  sig_strip_return_type, skip_brackets, skip_brackets_keep_close, skip_nested,
}
use gnata.Signature.Grammar.{Param, AreParams, print_params}
use gnata.Signature.RoundTrip.{meanings}
use gnata.Signature.ReturnType.{parse_sig-print_params, print_return, AreReturned}
use gnata.Signature.Progress.{IsResult, parse_sig-IsResult}

-- a<n>?(sl)-:n
abbrev array_sig : Bytes
array_sig = b'a' ∷ b'<' ∷ b'n' ∷ b'>' ∷ b'?' ∷ b'(' ∷ b's' ∷ b'l' ∷ b')' ∷ b'-' ∷ b':' ∷ b'n' ∷ []

abbrev array_spec : ParamSpec
array_spec = record {
  types = b'a' ∷ [];
  content_type = b'n';
  optional = true;
  variadic = false;
  context = false;
  lazy = false;
  any_context = false;
}

abbrev union_spec : ParamSpec
union_spec = record {
  types = b's' ∷ b'l' ∷ [];
  content_type = 0;
  optional = false;
  variadic = false;
  context = true;
  lazy = false;
  any_context = false;
}

parse_array : parse_sig array_sig ≡ some (fine (array_spec ∷ union_spec ∷ []))
unfolding add_modifier close_content close_union content_of invalid_content is_valid_sig_type
    last_colon make_spec parse_content parse_modifiers parse_param parse_params parse_sig
    parse_sig_content_type parse_sig_union parse_types sig_strip_return_type skip_brackets
    skip_brackets_keep_close skip_nested
parse_array = refl

-- n<n>: a content type of a number
parse_invalid : parse_sig (b'n' ∷ b'<' ∷ b'n' ∷ b'>' ∷ []) ≡ some (failed (content_not_valid b'n'))
unfolding add_modifier close_content close_union content_of invalid_content is_valid_sig_type
    last_colon make_spec parse_content parse_modifiers parse_param parse_params parse_sig
    parse_sig_content_type parse_sig_union parse_types sig_strip_return_type skip_brackets
    skip_brackets_keep_close skip_nested
parse_invalid = refl

parse_sig-IsResult_example : IsResult (parse_sig array_sig)
parse_sig-IsResult_example = parse_sig-IsResult array_sig

abbrev sig_params : List Param
sig_params =
    record { grouped = false; types = b'a' ∷ []; content = some b'n'; modifiers = b'?' ∷ [] }
    ∷ record {
      grouped = true;
      types = b's' ∷ b'l' ∷ [];
      content = none;
      modifiers = b'?' ∷ b'-' ∷ b'+' ∷ [];
    }
    ∷ []

-- a<n>?(sl)?-+:nb
sig_params-AreParams : AreParams sig_params
unfolding is_valid_sig_type
sig_params-AreParams = (((refl, refl), (refl, refl, refl), refl), ((refl, tt, refl), tt))

returned-AreReturned : AreReturned (some (b'n' ∷ b'b' ∷ []))
unfolding is_valid_sig_type
returned-AreReturned = refl

parse_sig-print_params_example :
    parse_sig (print_params sig_params ++ print_return (some (b'n' ∷ b'b' ∷ [])))
    ≡ some (fine (meanings sig_params))
parse_sig-print_params_example =
    parse_sig-print_params sig_params (some (b'n' ∷ b'b' ∷ [])) sig_params-AreParams
      returned-AreReturned

-- ===== src/Url/Tests.antt =====
-- Escapes in URLs.
use gnata.Base.{◌≡◌, ◌≢◌, arith, refl, codes, Bytes, [], ◌∷◌, false, encode_rune, rune_size}
use gnata.Integer.{Runes, ok, err}
use gnata.Url.{
  ran_out, d3140, encode_url, encode_url_component, encode_uri_component_safe, uri_reserved,
  has_lone_surrogate, encode_with_safe_chars, escape_bytes, decode_url, decode_url_component,
  decode_uri, decode_from, take_run, valid_from, bytes_of,
}
use gnata.Url.Fuel.{decode_from-fuel}
use gnata.Url.RoundTrip.{decode_url-encode_url}

-- `a?` and the euro sign
abbrev text : Runes
text = b'a' ∷ b'?' ∷ 0x20AC ∷ []

encoded : encode_url_component text ≡ ok (codes "a%3F%E2%82%AC")
unfolding encode_url_component encode_uri_component_safe has_lone_surrogate encode_with_safe_chars
    escape_bytes encode_rune
encoded = refl

kept : decode_url (codes "%3F%41") ≡ ok (codes "%3FA")
unfolding decode_url decode_uri decode_from take_run valid_from uri_reserved
kept = refl

malformed_run : decode_url_component (codes "%E2%82") ≡ err d3140
unfolding decode_url_component decode_uri decode_from take_run valid_from rune_size
malformed_run = refl

text-lone : has_lone_surrogate text ≡ false
unfolding has_lone_surrogate
text-lone = refl

decode_url-encode_url_example :
    ((e : Bytes) × (encode_url text ≡ ok e) × (decode_url e ≡ ok (bytes_of text)))
    × ((e : Bytes) × (encode_url_component text ≡ ok e)
        × (decode_url_component e ≡ ok (bytes_of text)))
decode_url-encode_url_example = decode_url-encode_url text refl text-lone

decode_from-fuel_example :
    (decode_from 9 [] (codes "%41b") ≡ decode_uri [] (codes "%41b"))
    × (decode_from 9 [] (codes "%41b") ≢ ran_out)
decode_from-fuel_example = decode_from-fuel 9 [] (codes "%41b") (omega arith)

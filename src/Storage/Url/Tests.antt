-- ===== src/Storage/Url/Tests.antt =====
-- Runs of the percent coding at small inputs.
use kama_asyn_log_system_clo.Base.{codes, ◌≡◌, refl, none, some, [], ◌∷◌, arith}
use kama_asyn_log_system_clo.Storage.Url.{url_decode, url_encode}
use kama_asyn_log_system_clo.Storage.Url.RoundTrip.{url_decode-url_encode}

-- A cut-off or wrong code is refused, in either case of the digits.
refused :
    (url_decode (codes "a%4") ≡ none)
    × (url_decode (codes "%G0") ≡ none)
    × (url_decode (codes "%c3%A9") ≡ some (0xc3 ∷ 0xa9 ∷ []))
unfolding url_decode
refused = (refl, refl, refl)

encoded_text : url_encode (codes "a b/c") ≡ codes "a%20b%2Fc"
unfolding url_encode
encoded_text = refl

url_decode-url_encode_example :
    url_decode (url_encode (0xc3 ∷ codes " /%")) ≡ some (0xc3 ∷ codes " /%")
url_decode-url_encode_example = url_decode-url_encode (0xc3 ∷ codes " /%") (omega arith)

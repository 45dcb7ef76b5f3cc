-- ===== src/Agent/AllowlistTests.antt =====
-- The theorems of the allow-list at concrete inputs: addresses are read as their texts.
use infinity_radius.Prelude.{
  Bool, true, false, Option, none, some, List, [], ◌∷◌, ◌≡◌, refl, text, Text, eq_text, is_empty,
  if◌then◌else◌,
}
use infinity_radius.Agent.Allowlist.{
  Request, is_exempt, is_trusted, client_ip, dispatch, IsAdmitted, dispatch-IsAdmitted,
  dispatch_ignores_header,
}

abbrev read_text : Text → Option Text
read_text s = if is_empty s then none else some s

abbrev no_network : Text → Option (Text → Bool)
no_network s = none

abbrev list : List Text
list = text "10.0.0.1" ∷ text "203.0.113.7" ∷ []

abbrev proxied : Request
proxied = record {
  path = text "/routers";
  host = some (text "127.0.0.1");
  x_forwarded_for = some (text "203.0.113.7, 10.9.9.9");
}

abbrev direct : Request
direct = record proxied { host = some (text "198.51.100.1") }

passed_on : dispatch read_text no_network eq_text list proxied ≡ true
unfolding dispatch eq_text
passed_on = refl

not_exempt : is_exempt proxied.path ≡ false
unfolding is_exempt
not_exempt = refl

untrusted : is_trusted direct.host ≡ false
unfolding is_trusted
untrusted = refl

dispatch-IsAdmitted_example : IsAdmitted read_text no_network eq_text list (client_ip proxied)
dispatch-IsAdmitted_example =
    dispatch-IsAdmitted read_text no_network eq_text (text "10.0.0.1") (text "203.0.113.7" ∷ [])
      proxied not_exempt passed_on

dispatch_ignores_header_example :
    dispatch read_text no_network eq_text list (record direct { x_forwarded_for = none })
    ≡ dispatch read_text no_network eq_text list direct
dispatch_ignores_header_example =
    dispatch_ignores_header read_text no_network eq_text list direct none untrusted

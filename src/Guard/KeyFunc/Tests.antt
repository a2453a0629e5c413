-- ===== src/Guard/KeyFunc/Tests.antt =====
-- A chain of two proxies.
use chassis_go.Prelude.{
  ℕ, ◌≡◌, ◌↔◌, refl, true, Bool, nat_comparable, text, Option, none, some, List, [], ◌∷◌, ◌++◌, ltb,
}
use chassis_go.Guard.KeyFunc.{
  Request, Net, parts_of, remote_host, is_trusted_peer, walk, x_forwarded_for, ip_filter,
}
use chassis_go.Guard.KeyFunc.Chain.{x_forwarded_for-spoofed}
use chassis_go.Guard.KeyFunc.Filtering.{Served, ip_filter_iff}

abbrev first_digit : List ℕ → Option ℕ
first_digit [] = none
first_digit (c ∷ s) = some c

-- An address is a text that is not empty, known by its first character; a digit below five is a trusted proxy's.
abbrev digits : Net ℕ
digits = record { split_host_port = λ s. none; parse_ip = first_digit }

abbrev proxied : Request
proxied = record { remote_addr = text "1"; x_forwarded_for = text "8" }

abbrev proxies : List (ℕ → Bool)
proxies = (λ ip. ltb ip 53) ∷ []

trusted : is_trusted_peer digits proxies (digits.parse_ip (remote_host digits proxied)) ≡ true
unfolding is_trusted_peer remote_host chassis_go.Guard.KeyFunc.contained
    chassis_go.Guard.KeyFunc.is_space
trusted = refl

client_found : walk digits proxies (parts_of (text "7,2")) ≡ some (text "7")
unfolding walk parts_of chassis_go.Guard.KeyFunc.split_commas chassis_go.Guard.KeyFunc.trim_space
    chassis_go.Guard.KeyFunc.is_client chassis_go.Guard.KeyFunc.contained
    chassis_go.Guard.KeyFunc.is_space
client_found = refl

x_forwarded_for-spoofed_example :
    x_forwarded_for digits proxies
      (record proxied { x_forwarded_for = text "9" ++ b',' ∷ text "7,2" })
    ≡ text "7"
x_forwarded_for-spoofed_example =
    x_forwarded_for-spoofed digits proxies proxied (text "9") (text "7,2") (text "7") trusted
      client_found

ip_filter_iff_example :
    (ip_filter digits (λ r. r.remote_addr) proxies [] proxied ≡ true)
    ↔ Served (digits.parse_ip proxied.remote_addr) proxies []
ip_filter_iff_example = ip_filter_iff digits (λ r. r.remote_addr) proxied proxies []

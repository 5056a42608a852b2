-- ===== src/Tests/Sending.antt =====
-- A concrete run of the forwarding of headers.
use file_server.Prelude.{str, find, str_dec, [], ◌∷◌, if◌then◌else◌, ◌≡◌, refl}
use file_server.Http.{Header, canonical, canonical_from, all_token, is_token, values_of}
use file_server.Origin.{hop_by_hop, copy_headers}
use file_server.Origin.Forwarding.{IsReceived, copy_headers-forwards}

abbrev received : Header
received = (str "Te", str "trailers" ∷ []) ∷ (str "X-A", str "1" ∷ str "2" ∷ []) ∷ []

received-IsReceived : IsReceived received
unfolding find str_dec canonical canonical_from all_token is_token
received-IsReceived = record { distinct = (refl, (refl, tt)); canonical_keys = (refl, (refl, tt)) }

copy_headers-forwards_example :
    values_of (find (str "X-A") (copy_headers [] received))
    ≡ (if hop_by_hop (str "X-A") then [] else values_of (find (str "X-A") received))
copy_headers-forwards_example = copy_headers-forwards received (str "X-A") received-IsReceived

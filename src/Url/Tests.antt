-- ===== src/Url/Tests.antt =====
-- The URL functions on concrete hosts, and an instance of their theorem.
use lager_rs.Prelude.{
  ◌≡◌, refl, Text, str, ok, ◌∷◌, ◌++◌, decimal, trim, split_once, rsplit_once, parse_radix, arith,
}
use lager_rs.Url.{base_url, base_url_with_port, service_base, host_of, host_port}
use lager_rs.Url.Plain.{IsHost, url_of, base_url-host}

abbrev bench : Text
bench = str "192.168.1.42"

-- An IPv6 address gets no port, and its last group is then taken for one.
base_url_ipv6 : base_url (str "fd00::12") ≡ ok (str "http://fd00::12")
unfolding base_url base_url_with_port trim split_once
base_url_ipv6 = refl

host_port_ipv6 : host_port (str "http://fd00::12") ≡ ok (str "fd00:", 12)
unfolding host_port split_once rsplit_once parse_radix
host_port_ipv6 = refl

bench-IsHost : IsHost bench
bench-IsHost = record { chars = refl; filled = refl }

base_url-host_example :
    (base_url bench ≡ ok (url_of bench 9000))
    × (base_url (bench ++ b':' ∷ decimal 8080) ≡ ok (url_of bench 8080))
    × (host_of (url_of bench 8080) ≡ bench)
    × (host_port (url_of bench 8080) ≡ ok (bench, 8080))
    × (service_base (url_of bench 8080) 8765 ≡ url_of bench 8765)
base_url-host_example = base_url-host bench-IsHost 8080 8765 (omega arith)

-- ===== src/Tests/Wire.antt =====
-- Packets and handshakes at concrete values.
use mobile_injection.Base.{
  ℕ, Option, ◌+◌, ◌≡◌, refl, arith, true, false, inr, List, [], ◌∷◌, ◌++◌, length, some, replicate,
  pos,
}
use mobile_injection.Base.Run.{ok, fault, out_of_fuel, read_bytes}
use mobile_injection.Util.Checksum.{calc_checksum}
use mobile_injection.Net.Header.{ip4_header}
use mobile_injection.Net.Header.Checksum.{ip4_header_checks}
use mobile_injection.Net.Decode.{tcp_header}
use mobile_injection.Tls.{parse_tls_header}
use mobile_injection.Tls.Bounds.{Returns, parse_tls_header-Returns}
use mobile_injection.Http.Find.{same_text, find_data}
use mobile_injection.Http.Headers.{get_header}
use mobile_injection.Http.Headers.Short.{get_header-short}
use mobile_injection.Base.Text.{codes}
use mobile_injection.Http.Patch.{patch_http_url}
use mobile_injection.Http.Insertion.{IsPatched}
use mobile_injection.Http.Request.{patch_http_url-IsPatched}
use mobile_injection.Tls.Name.{encode_extensions}
use mobile_injection.Tls.Encode.{Hello, encode_hello}
use mobile_injection.Tls.Hello.{parse_tls_header-encode_hello}
use mobile_injection.Net.Header.Pseudo.{receiver_pseudo}
use mobile_injection.Tcp.Packet.{tcp_segment}
use mobile_injection.Tcp.Packet.Checksum.{tcp_segment_checks}
use mobile_injection.Tcp.Packet.Header.{tcp_header-tcp_segment}
use mobile_injection.Tcp.Options.{Options, options_loop}
use mobile_injection.Tcp.Options.Laws.{
  TcpOption, encode_options, apply_options, options_loop-encode_options, options_loop-length_zero,
}
use mobile_injection.Tests.Data.{session, client, server, flags}

abbrev bytes : List ℕ
bytes = 72 ∷ 105 ∷ 33 ∷ []

abbrev chosen : List TcpOption
chosen =
    TcpOption.maximum_segment_size 5 120
    ∷ TcpOption.no_operation
    ∷ TcpOption.other 8 (1 ∷ 2 ∷ [])
    ∷ []

abbrev start : Options
start = record { mss = 1460; ws = 0 }

tcp_segment_checks_example :
    calc_checksum 0 (
      receiver_pseudo session.version session.daddr session.saddr 6
        (length (tcp_segment session bytes flags))
      ++ tcp_segment session bytes flags)
    ≡ 0xffff
tcp_segment_checks_example =
    tcp_segment_checks session bytes flags
      (record {
        saddr = record { size = refl; bytes = omega arith };
        daddr = record { size = refl; bytes = omega arith };
        scale = omega arith;
      })
      (omega arith) (omega arith)

tcp_header-tcp_segment_example :
    tcp_header (tcp_segment session bytes flags)
    ≡ ok (record {
      source = 8080;
      dest = 40_000;
      seq = 3_000_000_000;
      ack_seq = 501;
      doff = 7;
      fin = false;
      syn = true;
      rst = false;
      psh = false;
      ack = true;
      urg = false;
      window = 1024;
    })
tcp_header-tcp_segment_example = tcp_header-tcp_segment session bytes flags (record {
  source = omega arith;
  dest = omega arith;
  local_seq = omega arith;
  remote_seq = omega arith;
})

ip4_header_checks_example :
    (length (ip4_header 60 6 client server) ≡ 20)
    × (calc_checksum 0 (ip4_header 60 6 client server) ≡ 0xffff)
ip4_header_checks_example =
    ip4_header_checks 60 6 client server (omega arith) refl refl (omega arith) (omega arith)

parse_tls_header-Returns_example :
    Returns [] (parse_tls_header true (22 ∷ 3 ∷ 1 ∷ 0 ∷ 1 ∷ 1 ∷ []) 6 [])
parse_tls_header-Returns_example =
    parse_tls_header-Returns true (22 ∷ 3 ∷ 1 ∷ 0 ∷ 1 ∷ 1 ∷ []) 6 [] (omega arith)

options_loop-encode_options_example :
    options_loop 4
      (encode_options chosen ++ (0 ∷ 9 ∷ []))
      (length (encode_options chosen) + 1)
      start
    ≡ ok (apply_options start chosen)
options_loop-encode_options_example =
    options_loop-encode_options chosen 0 9 [] 1 start (omega arith) (inr refl)

options_loop-length_zero_example : options_loop 40 (8 ∷ 0 ∷ 9 ∷ []) 3 start ≡ out_of_fuel
options_loop-length_zero_example =
    options_loop-length_zero 40 8 (9 ∷ []) 3 start (omega arith) (omega arith)

abbrev hello : Hello
hello = record {
  minor = 1;
  record_high = 0;
  record_low = 66;
  h1 = 0;
  h2 = 0;
  h3 = 66;
  v1 = 3;
  v2 = 3;
  random =
      1 ∷ 2 ∷ 3 ∷ 4 ∷ 5 ∷ 6 ∷ 7 ∷ 8 ∷ 9 ∷ 10 ∷ 11 ∷ 12 ∷ 13 ∷ 14 ∷ 15 ∷ 16 ∷ 17 ∷ 18 ∷ 19 ∷ 20 ∷ 21
      ∷ 22 ∷ 23 ∷ 24 ∷ 25 ∷ 26 ∷ 27 ∷ 28 ∷ 29 ∷ 30 ∷ 31 ∷ 32 ∷ [];
  session = 7 ∷ [];
  ciphers_high = 0;
  ciphers_low = 2;
  ciphers = 19 ∷ 1 ∷ [];
  compressions = 0 ∷ [];
  all_high = 0;
  all_low = 18;
  before = record { type_high = 0; type_low = 23; high = 0; low = 1; content = 5 ∷ [] } ∷ [];
  ext_high = 0;
  ext_low = 9;
  list_high = 0;
  list_low = 7;
  name_high = 0;
  name_low = 4;
  name = 97 ∷ 46 ∷ 105 ∷ 111 ∷ [];
  after = [];
}

parse_tls_header-encode_hello_example :
    parse_tls_header true (encode_hello hello ++ (0 ∷ 0 ∷ [])) 72 [] ≡ ok (97 ∷ 46 ∷ 105 ∷ 111 ∷ [])
unfolding encode_extensions
parse_tls_header-encode_hello_example =
    parse_tls_header-encode_hello hello
      (record {
        random_size = refl;
        record_size = refl;
        ciphers_size = refl;
        all_size = refl;
        others = (record { other = refl; sized = refl }, tt);
        ext_size = refl;
        name_size = refl;
        some_name = omega arith;
        fits = omega arith;
        no_nul = omega arith;
      })
      [] (0 ∷ 0 ∷ []) true 72 (omega arith)

-- A request in memory, with its length.
abbrev request : List ℕ
request = codes "GET /a" ++ (13 ∷ 10 ∷ (codes "Host: b.c" ++ (13 ∷ 10 ∷ [])))

-- The request for the proxy.
patch_http_url-request :
    patch_http_url (request ++ replicate 517 0) 19
    ≡ ok (some (codes "GET http://b.c/a" ++ (13 ∷ 10 ∷ (codes "Host: b.c" ++ (13 ∷ 10 ∷ [])))))
unfolding patch_http_url find_data
patch_http_url-request = refl

patch_http_url-IsPatched_example :
    (r : Option (List ℕ)) × ((patch_http_url (request ++ 0 ∷ replicate 516 0) (length request)
        ≡ ok r)
      × IsPatched (request ++ 0 ∷ replicate 516 0) request r)
patch_http_url-IsPatched_example = patch_http_url-IsPatched request (replicate 516 0) (omega arith)

get_header-request :
    get_header (codes "host:") (request ++ (13 ∷ 10 ∷ [])) 21 true ≡ ok (pos 3, codes "b.c")
unfolding get_header same_text read_bytes
get_header-request = refl

get_header-short_example : get_header (codes "host:") (13 ∷ []) 1 true ≡ fault
get_header-short_example = get_header-short (codes "host:") (13 ∷ []) true (omega arith)

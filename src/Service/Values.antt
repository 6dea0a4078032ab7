-- ===== src/Service/Values.antt =====
-- The functions of app/src/main/cpp/tun2http.c that answer Java with one value.
use mobile_injection.Base.{ℕ, Option, none, some, List, []}
use mobile_injection.Net.Header.{get_mtu}

unfoldable pub jni_get_mtu : ℕ
unfolding get_mtu
jni_get_mtu = get_mtu

-- The string that `property` gives for the name, or the empty one that `value` begins with.
unfoldable pub jni_getprop : (property : List ℕ → Option (List ℕ)) → (name : List ℕ) → List ℕ
jni_getprop property name = elim (property name) [ none ↦ [] | some value ↦ value ]

-- ===== src/Service/Java.antt =====
-- The calls of app/src/main/cpp/tun2http.c into Java: `JNI_OnLoad`, `protect_socket` and the functions
-- that it uses.
use mobile_injection.Base.{
  ℕ, suc, ◌+◌, ◌-◌, ◌≡◌, refl, ap, ◌∙◌, arith, Bool, true, false, not, ◌||◌, Option, none, some,
  List, [], ◌∷◌, ℤ, pos, negsuc, if◌then◌else◌,
}
use mobile_injection.Base.Run.{◌>>=◌, Run, ok, fault}

-- JNI_VERSION_1_6, or -1 if GetEnv fails, and the soft and the hard limit on descriptors. getrlimit gives
-- nothing if it fails.
unfoldable pub jni_onload :
    (has_env : Bool) (limit : Option (ℕ × ℕ)) (set_fails : Bool) → ℤ × Option (ℕ × ℕ)
jni_onload false limit set_fails = (negsuc 0, limit)
jni_onload true none set_fails = (pos 0x00010006, none)
jni_onload true (some (soft, hard)) set_fails =
    (pos 0x00010006, some (if set_fails then soft else hard, hard))

-- What a thread has at the Java machine: its local references, an exception that is pending, and
-- whether `midProtect` has been found before.
pub record Java : Type 0 where
  pub refs : ℕ
  pub pending : Bool
  pub cached : Bool

-- Whether GetMethodID finds the method, whether the call of `protect` throws, and what it returns.
pub record Answer : Type 0 where
  pub found : Bool
  pub throws : Bool
  pub is_protected : Bool

-- The reference to the exception is deleted again.
unfoldable pub jni_check_exception : Java → Bool × Java
jni_check_exception j = (j.pending, record j { pending = false })

-- A class that is not found leaves the exception of FindClass pending.
unfoldable pub jni_find_class : (found : Bool) → Java → Bool × Java
unfolding jni_check_exception
jni_find_class found j =
    if found
    then (true, (jni_check_exception (record j { refs = suc j.refs })).1)
    else (false, record j { pending = true })

-- The exception of a method that is not found is cleared.
unfoldable pub jni_get_method_id : (found : Bool) → Java → Bool × Java
unfolding jni_check_exception
jni_get_method_id found j =
    if found then (true, j) else (false, (jni_check_exception (record j { pending = true })).1)

-- `midProtect`, which is looked up until it has been found. A call of a method that is NULL is a fault.
unfoldable pub find_protect : Answer → Java → Run Java
unfolding jni_get_method_id
find_protect a j =
    let (found, j1) = jni_get_method_id a.found j in
    if j.cached then ok j else if found then ok (record j1 { cached = true }) else fault

-- The reference to the class is deleted on success only.
unfoldable pub protect_socket : Answer → Java → Run (ℤ × Java)
unfolding find_protect jni_check_exception
protect_socket a j = do
  j1 ← find_protect a (record j { refs = suc j.refs })
  let j2 = (jni_check_exception (record j1 { pending = a.throws })).1
  if not a.is_protected then ok (negsuc 0, j2) else ok (pos 0, record j2 { refs = j2.refs - 1 })

-- One call after the other, for one socket each: the results and what is left.
unfoldable pub protect_sockets : List Answer → Java → Run (List ℤ × Java)
protect_sockets [] j = ok ([], j)
protect_sockets (a ∷ rest) j = do
  (r, j1) ← protect_socket a j
  (rs, j2) ← protect_sockets rest j1
  ok (r ∷ rs, j2)

-- What the results should be, and how many calls are refused.
abbrev pub results : List Answer → List ℤ
results [] = []
results (a ∷ rest) = (if a.is_protected then pos 0 else negsuc 0) ∷ results rest

abbrev pub refused : List Answer → ℕ
refused [] = 0
refused (a ∷ rest) = (if a.is_protected then 0 else 1) + refused rest

protect_socket_lem :
    (a : Answer) (j : Java)
    → (j.cached || a.found) ≡ true
    → (j1 : Java) × ((protect_socket a j ≡ ok (if a.is_protected then pos 0 else negsuc 0, j1))
        × ((j1.refs ≡ j.refs + (if a.is_protected then 0 else 1))
            × ((j1.cached ≡ true) × (j1.pending ≡ false))))
unfolding protect_socket
protect_socket_lem a j h = (
  record { refs = j.refs + (if a.is_protected then 0 else 1); pending = false; cached = true },
  (ground arith, (refl, (refl, refl))),
)

-- The method is known, or the first call finds it.
abbrev pub is_found : List Answer → (cached : Bool) → Bool
is_found [] cached = true
is_found (a ∷ rest) cached = cached || a.found

is_found-true : (answers : List Answer) → is_found answers true ≡ true
is_found-true [] = refl
is_found-true (a ∷ rest) = refl

-- If the method is known or the first call finds it, and no exception is pending: the calls of
-- `protect_socket` answer as Java does, none leaves an exception pending, and each refused one leaves one
-- more local reference behind.
pub protect_sockets_lem :
    (answers : List Answer) (j : Java)
    → is_found answers j.cached ≡ true
    → j.pending ≡ false
    → (j1 : Java) × ((protect_sockets answers j ≡ ok (results answers, j1))
        × ((j1.refs ≡ j.refs + refused answers) × (j1.pending ≡ false)))
unfolding protect_sockets
protect_sockets_lem [] j h k = (j, (refl, (omega arith, k)))
protect_sockets_lem (a ∷ rest) j h k =
    let (j1, (e, (refs, (cached, pending)))) = protect_socket_lem a j h in
    let known : is_found rest j1.cached ≡ true =
      ap (λ b. is_found rest b) cached ∙ is_found-true rest in
    let (j2, (f, (more, clear))) = protect_sockets_lem rest j1 known pending in
    (j2, (rw (e, f) refl, (omega (arith, refs, more), clear)))

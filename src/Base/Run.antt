-- ===== src/Base/Run.antt =====
-- The outcome of code that reads memory and loops: a value, a read outside the memory (which C
-- leaves undefined), or a loop that has used up its rounds.
use Prim.Native.Nat.{ℕ, zero, suc, ◌+◌, ◌<◌}
use mobile_injection.Base.Word.{IsBytes}
use mathlib.Core.Bool.{Bool, true, false}
use mobile_injection.Base.Tests.{ltb, leb, if◌then◌else◌, leb→le, Bool-cases}
use mathlib.Core.Path.{◌≡◌, refl, subst}
use mathlib.Core.List.{List, [], ◌∷◌}
use mathlib.Core.Logic.{inl, inr}
use mathlib.Core.Option.{Option, none, some}
use mobile_injection.Base.Lists.{
  length, length-overwrite, take, overwrite, get_elem?, get_elem?-lt, get_elem?-some,
}

pub data Run {ℓ} (A : Type ℓ) : Type ℓ where
  ok : A → Run A
  fault : Run A
  out_of_fuel : Run A

infixl 5 ◌>>=◌
abbrev pub ◌>>=◌ {ℓ κ} : {A : Type ℓ} {B : Type κ} → Run A → (A → Run B) → Run B
ok a >>= f = f a
fault >>= f = fault
out_of_fuel >>= f = out_of_fuel

-- The byte at p[i].
abbrev pub read : List ℕ → ℕ → Run ℕ
read p i = elim (get_elem? p i) [ none ↦ fault | some x ↦ ok x ]

pub read-lt : (p : List ℕ) (i : ℕ) → i < length p → (x : ℕ) × (read p i ≡ ok x)
read-lt p i h = let (x, e) = get_elem?-lt p i h in (x, rw (e, read))

-- The n bytes at the start of a memory.
unfoldable pub read_bytes : List ℕ → (n : ℕ) → Run (List ℕ)
read_bytes p n = if ltb (length p) n then fault else ok (take n p)

-- A copy of bytes into a buffer; a copy that leaves the buffer is a fault.
abbrev pub store : (buf : List ℕ) (off : ℕ) → List ℕ → Run (List ℕ)
store buf off xs = if leb (off + length xs) (length buf) then ok (overwrite buf off xs) else fault

-- The run returns a value.
abbrev pub Ends {ℓ} : {A : Type ℓ} → Run A → Type ℓ
Ends {A = A} r = (a : A) × (r ≡ ok a)

pub Ends-if {ℓ} :
    {A : Type ℓ} (b : Bool) (m n : Run A) → Ends m → Ends n → Ends (if b then m else n)
Ends-if true m n h k = h
Ends-if false m n h k = k

pub Ends->>= {ℓ κ} :
    {A : Type ℓ} {B : Type κ} (m : Run A) (f : A → Run B) (a : A)
    → m ≡ ok a
    → Ends (f a)
    → Ends (m >>= f)
Ends->>= m f a e h = rw e h

-- A property of the value of a run, if it returns one.
abbrev pub EachOk {ℓ κ} : {A : Type ℓ} → (A → Type κ) → Run A → Type κ
EachOk P (ok a) = P a
EachOk P fault = Unit
EachOk P out_of_fuel = Unit

pub EachOk-bind {ℓ κ} :
    {A : Type ℓ} {B : Type κ} (P : A → Type 0) (Q : B → Type 0) (r : Run A) (f : A → Run B)
    → EachOk P r
    → ((a : A) → P a → EachOk Q (f a))
    → EachOk Q (r >>= f)
EachOk-bind P Q (ok a) f h k = k a h
EachOk-bind P Q fault f h k = tt
EachOk-bind P Q out_of_fuel f h k = tt

pub EachOk-if {ℓ} :
    {A : Type ℓ} (P : A → Type 0) (b : Bool) (m n : Run A)
    → EachOk P m
    → EachOk P n
    → EachOk P (if b then m else n)
EachOk-if P true m n h k = h
EachOk-if P false m n h k = k

-- A property of the value of a chain, whatever the values it goes through.
pub EachOk->>= {ℓ κ μ} :
    {A : Type ℓ} {B : Type κ} (P : B → Type μ) (r : Run A) (f : A → Run B)
    → ((a : A) → EachOk P (f a))
    → EachOk P (r >>= f)
EachOk->>= P (ok a) f h = h a
EachOk->>= P fault f h = tt
EachOk->>= P out_of_fuel f h = tt

-- The run does not use up its rounds, and its value, if it returns one, has the property.
abbrev pub Settles {ℓ} : {A : Type ℓ} → (A → Type 0) → Run A → Type 0
Settles P (ok a) = P a
Settles P fault = Unit
Settles P out_of_fuel = ⊥

pub Settles->>= {ℓ κ} :
    {A : Type ℓ} {B : Type κ} (P : A → Type 0) (Q : B → Type 0) (r : Run A) (f : A → Run B)
    → Settles P r
    → ((a : A) → P a → Settles Q (f a))
    → Settles Q (r >>= f)
Settles->>= P Q (ok a) f h k = k a h
Settles->>= P Q fault f h k = tt
Settles->>= P Q out_of_fuel f h k = absurd h

element-Settles :
    (p : List ℕ) (i : ℕ) (o : Option ℕ)
    → get_elem? p i ≡ o
    → Settles (λ x. i < length p) (elim o [ none ↦ fault | some x ↦ ok x ])
element-Settles p i none e = tt
element-Settles p i (some a) e = get_elem?-some p i a e

pub read-Settles : (p : List ℕ) (i : ℕ) → Settles (λ x. i < length p) (read p i)
read-Settles p i = element-Settles p i (get_elem? p i) refl

byte-Settles : (p : List ℕ) (i : ℕ) → IsBytes p → Settles (λ x. x < 256) (read p i)
byte-Settles [] i h = tt
byte-Settles (x ∷ p) zero h = h.0
byte-Settles (x ∷ p) (suc i) h = byte-Settles p i h.1

both-Settles {ℓ} :
    {A : Type ℓ} (P Q : A → Type 0) (r : Run A)
    → Settles P r
    → Settles Q r
    → Settles (λ a. P a × Q a) r
both-Settles P Q (ok a) h k = (h, k)
both-Settles P Q fault h k = tt
both-Settles P Q out_of_fuel h k = h

-- A read of a memory of bytes.
pub read_byte-Settles :
    (p : List ℕ) (i : ℕ) → IsBytes p → Settles (λ x. (i < length p) × (x < 256)) (read p i)
read_byte-Settles p i h = both-Settles _ _ (read p i) (read-Settles p i) (byte-Settles p i h)

pub Settles-if {ℓ} :
    {A : Type ℓ} (P : A → Type 0) (b : Bool) (m n : Run A)
    → (b ≡ true → Settles P m)
    → (b ≡ false → Settles P n)
    → Settles P (if b then m else n)
Settles-if P true m n h k = h refl
Settles-if P false m n h k = k refl

pub >>=-cong {ℓ κ} :
    {A : Type ℓ} {B : Type κ} (r : Run A) (f g : A → Run B)
    → ((a : A) → r ≡ ok a → f a ≡ g a)
    → (r >>= f) ≡ (r >>= g)
>>=-cong (ok a) f g h = h a refl
>>=-cong fault f g h = refl
>>=-cong out_of_fuel f g h = refl

-- A read that returns has read the first bytes.
pub read_bytes-take : (p : List ℕ) (n : ℕ) → EachOk (λ xs. xs ≡ take n p) (read_bytes p n)
unfolding read_bytes
read_bytes-take p n =
    EachOk-if (λ xs. xs ≡ take n p) (ltb (length p) n) fault (ok (take n p)) tt refl

pub EachOk-ok {ℓ} : {A : Type ℓ} (P : A → Type 0) (r : Run A) (a : A) → EachOk P r → r ≡ ok a → P a
EachOk-ok P r a h e = subst (EachOk P) e h

-- A copy keeps the size of the buffer.
pub store-length :
    (buf : List ℕ) (off : ℕ) (xs : List ℕ) → EachOk (λ r. length r ≡ length buf) (store buf off xs)
store-length buf off xs = elim (Bool-cases (leb (off + length xs) (length buf))) [
  | inl fits ↦ rw fits (length-overwrite buf off xs (leb→le (off + length xs) (length buf) fits))
  | inr out ↦ rw out tt
]

-- The same with the value's equation, and with the test's.
pub EachOk-value {ℓ κ} :
    {A : Type ℓ} {B : Type κ} (P : B → Type 0) (r : Run A) (f : A → Run B)
    → ((a : A) → r ≡ ok a → EachOk P (f a))
    → EachOk P (r >>= f)
EachOk-value P (ok a) f h = h a refl
EachOk-value P fault f h = tt
EachOk-value P out_of_fuel f h = tt

pub EachOk-cases {ℓ} :
    {A : Type ℓ} (P : A → Type 0) (b : Bool) (m n : Run A)
    → (b ≡ true → EachOk P m)
    → (b ≡ false → EachOk P n)
    → EachOk P (if b then m else n)
EachOk-cases P true m n h k = h refl
EachOk-cases P false m n h k = k refl

pub EachOk-map {ℓ} :
    {A : Type ℓ} {P Q : A → Type 0} (r : Run A) → EachOk P r → ((a : A) → P a → Q a) → EachOk Q r
EachOk-map (ok a) h f = f a h
EachOk-map fault h f = tt
EachOk-map out_of_fuel h f = tt

-- A run that goes on with a value or without one.
pub EachOk-option {ℓ κ} :
    {A : Type ℓ} {B : Type κ} (P : Option A → Type 0) (Q : B → Type 0) (o : Option A) (m : Run B)
    (k : A → Run B)
    → P o
    → EachOk Q m
    → ((a : A) → P (some a) → EachOk Q (k a))
    → EachOk Q (elim o [ none ↦ m | some a ↦ k a ])
EachOk-option P Q none m k h absent present = absent
EachOk-option P Q (some a) m k h absent present = present a h

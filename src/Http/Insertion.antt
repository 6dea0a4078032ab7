-- ===== src/Http/Insertion.antt =====
-- What `patch_http_url` (app/src/main/cpp/http.c) changes in a request.
use mobile_injection.Base.{
  ℕ, zero, suc, ◌+◌, ◌-◌, ◌≤◌, ◌<◌, ◌≡◌, refl, sym, ap, ◌∙◌, arith, inl, inr, true, false, ◌||◌,
  ◌⊎◌, ltb, ◌==◌, Option, none, some, List, [], ◌∷◌, ◌++◌, take, drop, drop-take, length,
  length-take, length-drop, length-append, take-append-drop, take-length-append, Bool-cases,
}
use mobile_injection.Base.Run.{ok}
use mobile_injection.Base.Text.{codes}
use mobile_injection.Http.Find.{same_text}
use mobile_injection.Http.Search.{IsFirst}
use mobile_injection.Http.Patch.{Word, copy_host, words, insert_url, starts_with}

-- One of the words stands before the offset.
abbrev pub Follows : (mem : List ℕ) → List Word → ℕ → Type 0
Follows mem [] pos = ⊥
Follows mem ((first, rest) ∷ more) pos =
    ((p : ℕ) × ((pos ≡ p + suc (length rest)) × (same_text (first ∷ rest) (drop p mem) ≡ ok true)))
    ⊎ Follows mem more pos

-- None of the words is found in data of `n` bytes.
abbrev pub HasNoWord : (mem : List ℕ) (n : ℕ) → List Word → Type 0
HasNoWord mem n [] = Unit
HasNoWord mem n ((first, rest) ∷ more) =
    IsFirst mem first (first ∷ rest) 0 n none × HasNoWord mem n more

-- A host name: at most `room` bytes, and no carriage return.
abbrev pub HasNoReturn : List ℕ → Type 0
HasNoReturn [] = Unit
HasNoReturn (c ∷ cs) = ((c == 13) ≡ false) × HasNoReturn cs

abbrev pub BeginsWithReturn : List ℕ → Type 0
BeginsWithReturn [] = ⊥
BeginsWithReturn (c ∷ cs) = (c == 13) ≡ true

-- The host is the text of the memory up to the first carriage return, or its first `room` bytes.
abbrev pub IsHost : (room : ℕ) (mem host : List ℕ) → Type 0
IsHost room mem host =
    ((length host ≤ room) × HasNoReturn host)
    × ((rest : List ℕ) × ((mem ≡ host ++ rest) × ((length host ≡ room) ⊎ BeginsWithReturn rest)))

pub copy_host-IsHost :
    (room : ℕ) (mem : List ℕ)
    → room < length mem
    → (host : List ℕ) × ((copy_host room mem ≡ ok host) × IsHost room mem host)
unfolding copy_host
copy_host-IsHost room [] h = absurd (omega arith)
copy_host-IsHost zero (c ∷ mem) h = ([], (refl, ((omega arith, tt), (c ∷ mem, (refl, inl refl)))))
copy_host-IsHost (suc room) (c ∷ mem) h =
    let (host, (e, ((short, clean), (rest, (text, stops))))) =
      copy_host-IsHost room mem (omega arith) in
    elim (Bool-cases (c == 13)) [
      | inl returns ↦ ([], (rw returns refl, ((omega arith, tt), (c ∷ mem, (refl, inr returns)))))
      | inr goes ↦ (
        c ∷ host,
        (
          rw (goes, e) refl,
          (
            (omega (arith, short), (goes, clean)),
            (
              rest,
              (
                ap (λ t. c ∷ t) text,
                elim stops [ inl full ↦ inl (omega (arith, full)) | inr ends ↦ inr ends ],
              ),
            ),
          ),
        ),
      )
    ]

-- A request that is rewritten: the data split behind a word of the list, with the URL in between. The host
-- of the URL is the text behind the first "Host: " of the data, and no "http:" stood behind the word.
pub record Rewritten (mem bytes new_data : List ℕ) : Type 0 where
  before : List ℕ
  host : List ℕ
  after : List ℕ
  split : bytes ≡ before ++ after
  inserted : new_data ≡ before ++ (codes "http://" ++ (host ++ after))
  follows : Follows mem words (length before)
  relative : starts_with (codes "http:") (drop (length before) mem) ≡ ok false
  size : length new_data ≡ length bytes + 7 + length host
  place : ℕ
  header : IsFirst mem b'H' (codes "Host: ") 0 (length bytes) (some place)
  named : IsHost 511 (drop (place + 6) mem) host

-- A request that is left as it is: no "Host: " is found, or no word, or the URL is absolute.
abbrev pub Untouched : (mem bytes : List ℕ) → Type 0
Untouched mem bytes =
    IsFirst mem b'H' (codes "Host: ") 0 (length bytes) none
    ⊎ (HasNoWord mem (length bytes) words
        ⊎ ((pos : ℕ) × (Follows mem words pos
              × ((tail : List ℕ) × (drop pos mem ≡ codes "http:" ++ tail)))))

abbrev pub IsPatched : (mem bytes : List ℕ) → Option (List ℕ) → Type 0
IsPatched mem bytes none = Untouched mem bytes
IsPatched mem bytes (some new_data) = Rewritten mem bytes new_data

take-take : (n m : ℕ) (xs : List ℕ) → n ≤ m → take n (take m xs) ≡ take n xs
take-take zero m xs h = refl
take-take (suc n) zero xs h = absurd (omega arith)
take-take (suc n) (suc m) [] h = refl
take-take (suc n) (suc m) (x ∷ xs) h = ap (λ t. x ∷ t) (take-take n m xs (omega arith))

-- The URL is put behind the word.
pub insert_url-Rewritten :
    (bytes more : List ℕ) (pos1 place : ℕ) (host : List ℕ)
    → let mem = bytes ++ 0 ∷ more in
      pos1 ≤ length bytes
      → Follows mem words pos1
      → starts_with (codes "http:") (drop pos1 mem) ≡ ok false
      → IsFirst mem b'H' (codes "Host: ") 0 (length bytes) (some place)
      → IsHost 511 (drop (place + 6) mem) host
      → (new_data : List ℕ) × ((insert_url mem (length bytes) pos1 host ≡ ok (some new_data))
          × Rewritten mem bytes new_data)
unfolding insert_url
insert_url-Rewritten bytes more pos1 place host short follows fresh header named =
    let mem = bytes ++ 0 ∷ more in
    let data_len = length bytes in
    let room = length-append bytes (0 ∷ more) in
    let fits : ltb data_len pos1 || ltb (length mem) data_len ≡ false = ground (arith, room) in
    let before = take pos1 mem in
    let after = take (data_len - pos1) (drop pos1 mem) in
    let first : length before ≡ pos1 = omega (arith, length-take pos1 mem, room) in
    let second : length after ≡ data_len - pos1 =
      omega (arith, length-take (data_len - pos1) (drop pos1 mem), length-drop pos1 mem, room) in
    let whole : take data_len mem ≡ bytes = take-length-append bytes (0 ∷ more) in
    (
      before ++ (codes "http://" ++ (host ++ after)),
      (
        rw fits refl,
        record {
          before = before;
          host = host;
          after = after;
          split =
              sym whole
              ∙ (sym (take-append-drop pos1 (take data_len mem))
                  ∙ rw (take-take pos1 data_len mem short, drop-take pos1 data_len mem) refl);
          inserted = refl;
          follows = rw first follows;
          relative = ap (λ n. starts_with (codes "http:") (drop n mem)) first ∙ fresh;
          size =
              length-append before (codes "http://" ++ (host ++ after))
              ∙ omega (arith, length-append host after, first, second);
          place = place;
          header = header;
          named = named;
        },
      ),
    )

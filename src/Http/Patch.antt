-- ===== src/Http/Patch.antt =====
-- `patch_http_url` of app/src/main/cpp/http.c: the path of a request becomes an absolute URL.
use mobile_injection.Base.{
  ℕ, zero, suc, ◌+◌, ◌-◌, Bool, true, false, ◌||◌, ltb, ◌==◌, Option, none, some, List, [], ◌∷◌,
  ◌++◌, take, drop, length, if◌then◌else◌,
}
use mobile_injection.Base.Run.{◌>>=◌, Run, ok, fault}
use mobile_injection.Base.Text.{codes}
use mobile_injection.Http.Find.{find_data}

-- The bytes from `host` up to a carriage return, at most `room` of them.
unfoldable pub copy_host : (room : ℕ) (mem : List ℕ) → Run (List ℕ)
copy_host room [] = fault
copy_host zero (c ∷ mem) = ok []
copy_host (suc room) (c ∷ mem) =
    let next = (do host ← copy_host room mem; ok (c ∷ host)) in if c == 13 then ok [] else next

-- A method name with the blank behind it: its first letter and the rest.
abbrev pub Word : Type 0
Word = ℕ × List ℕ

abbrev pub words : List Word
words =
    (b'G', codes "ET ")
    ∷ (b'P', codes "OST ")
    ∷ (b'P', codes "UT ")
    ∷ (b'D', codes "ELETE ")
    ∷ (b'H', codes "EAD ")
    ∷ (b'O', codes "PTIONS ")
    ∷ (b'P', codes "ATCH ")
    ∷ (b'H', codes "EAD ")
    ∷ (b'T', codes "RACE ")
    ∷ (b'P', codes "ROPFIND ")
    ∷ (b'P', codes "ROPPATCH ")
    ∷ (b'M', codes "KCOL ")
    ∷ (b'C', codes "OPY ")
    ∷ (b'M', codes "OVE ")
    ∷ (b'L', codes "OCK ")
    ∷ (b'U', codes "NLOCK ")
    ∷ (b'L', codes "INK ")
    ∷ (b'U', codes "NLINK ")
    ∷ []

-- The first word of the list that occurs anywhere: the offset behind it.
unfoldable pub find_word : (mem : List ℕ) (data_len : ℕ) → List Word → Run (Option ℕ)
find_word mem data_len [] = ok none
find_word mem data_len ((first, rest) ∷ more) =
    let next = find_word mem data_len more in
    do
      found ← find_data mem data_len first rest
      elim found [ some pos ↦ ok (some (pos + suc (length rest))) | none ↦ next ]

-- data[pos1] == 'h' && data[pos1 + 1] == 't' && ... == ':'.
unfoldable pub starts_with : (value mem : List ℕ) → Run Bool
starts_with [] mem = ok true
starts_with (v ∷ value) [] = fault
starts_with (v ∷ value) (d ∷ mem) =
    let rest = starts_with value mem in if d == v then rest else ok false

-- The three memcpy calls; a negative count is a fault.
unfoldable pub insert_url :
    (mem : List ℕ) (data_len pos1 : ℕ) (hostname : List ℕ) → Run (Option (List ℕ))
insert_url mem data_len pos1 hostname =
    if ltb data_len pos1 || ltb (length mem) data_len
    then fault
    else ok (
        some (
          take pos1 mem
          ++ (codes "http://" ++ (hostname ++ take (data_len - pos1) (drop pos1 mem)))))

-- The new data, or `none` for the null pointer: nothing is to be changed.
unfoldable pub patch_http_url : (mem : List ℕ) (data_len : ℕ) → Run (Option (List ℕ))
unfolding copy_host find_word starts_with insert_url
patch_http_url mem data_len = do
  host ← find_data mem data_len b'H' (codes "ost: ")
  elim host [
    | none ↦ ok none
    | some h ↦ do
      hostname ← copy_host 511 (drop (h + 6) mem)
      word ← find_word mem data_len words
      elim word [
        | none ↦ ok none
        | some pos1 ↦ do
          patched ← starts_with (codes "http:") (drop pos1 mem)
          if patched then ok none else insert_url mem data_len pos1 hostname
      ]
  ]

-- ===== src/Files/Table.antt =====
-- What the table holds once an upload is added.
use clm.Base.{
  ℕ, suc, ap, subst, ◌≤◌, ◌≡◌, refl, inl, inr, Bytes, false, ◌&&◌, Option, none, some, List, [],
  ◌∷◌, length, arith, leb, ◌==◌, ==_iff, Bool-cases,
}
use clm.Files.{
  FileEnt, files_max, file_hash, is_for, find_ent, files_find, AddResult, added, no_space, put_ent,
  add_found, files_add,
}

find_ent-put :
    (es : List FileEnt) (h n : ℕ) (file_id : Option Bytes) (now : ℕ)
    → find_ent (put_ent es h n file_id now) h n
      ≡ some (record { hash = h; len = n; file_id = file_id; when = now })
unfolding find_ent put_ent
find_ent-put [] h n file_id now = ground arith
find_ent-put (e ∷ es) h n file_id now = elim (Bool-cases (is_for e h n)) [
  | inl here ↦ ground (arith, (==_iff e.hash h), (==_iff e.len n))
  | inr further ↦ rw further (rw further (find_ent-put es h n file_id now))
]

-- The entry of another URL stays as it is.
find_ent-put_other :
    (es : List FileEnt) (h n : ℕ) (file_id : Option Bytes) (now k l : ℕ)
    → (h == k && n == l) ≡ false
    → find_ent (put_ent es h n file_id now) k l ≡ find_ent es k l
unfolding find_ent put_ent
find_ent-put_other [] h n file_id now k l o = rw o refl
find_ent-put_other (e ∷ es) h n file_id now k l o = elim (Bool-cases (is_for e h n)) [
  | inl here ↦ ground arith
  | inr further ↦ rw (further, find_ent-put_other es h n file_id now k l o) refl
]

length-put_ent :
    (es : List FileEnt) (h n : ℕ) (file_id : Option Bytes) (now : ℕ)
    → length (put_ent es h n file_id now) ≤ suc (length es)
unfolding put_ent
length-put_ent [] h n file_id now = omega arith
length-put_ent (e ∷ es) h n file_id now = ground (arith, length-put_ent es h n file_id now)

length-put_found :
    (es : List FileEnt) (h n : ℕ) (file_id : Option Bytes) (now : ℕ) (found : FileEnt)
    → find_ent es h n ≡ some found
    → length (put_ent es h n file_id now) ≡ length es
unfolding put_ent find_ent
length-put_found [] h n file_id now found q = absurd (cc q)
length-put_found (e ∷ es) h n file_id now found q = elim (Bool-cases (is_for e h n)) [
  | inl here ↦ rw here refl
  | inr further ↦ rw further (ap suc (length-put_found es h n file_id now found (rw further at q)))
]

-- What an upload that was added left in the table.
pub record Added (es : List FileEnt) (url : Bytes) (file_id : Option Bytes) (now : ℕ)
    (es' : List FileEnt) : Type 0 where
  pub is_there :
      files_find es' url
      ≡ some (record { hash = file_hash url; len = length url; file_id = file_id; when = now })
  pub others :
      (k l : ℕ)
      → (file_hash url == k && length url == l) ≡ false
      → find_ent es' k l ≡ find_ent es k l
  pub bounded : length es ≤ files_max → length es' ≤ files_max

put_ent-Added :
    (es : List FileEnt) (url : Bytes) (file_id : Option Bytes) (now : ℕ)
    → (length es ≤ files_max
        → length (put_ent es (file_hash url) (length url) file_id now) ≤ files_max)
    → Added es url file_id now (put_ent es (file_hash url) (length url) file_id now)
unfolding files_find
put_ent-Added es url file_id now b = record {
  is_there = find_ent-put es (file_hash url) (length url) file_id now;
  others = λ k l o. find_ent-put_other es (file_hash url) (length url) file_id now k l o;
  bounded = b;
}

abbrev table_of : List FileEnt → AddResult → List FileEnt
table_of es (added es') = es'
table_of es no_space = es

add_found-Added :
    (es : List FileEnt) (url : Bytes) (file_id : Option Bytes) (now : ℕ) (o : Option FileEnt)
    (es' : List FileEnt)
    → files_find es url ≡ o
    → add_found es (file_hash url) (length url) file_id now o ≡ added es'
    → Added es url file_id now es'
unfolding add_found files_find
add_found-Added es url file_id now (some e) es' p q =
    let size = length-put_found es (file_hash url) (length url) file_id now e p in
    subst (λ r. Added es url file_id now (table_of es r)) q
      (put_ent-Added es url file_id now (λ b. omega (arith, size)))
add_found-Added es url file_id now none es' p q = elim (Bool-cases (leb files_max (length es))) [
  | inl full ↦ absurd (cc (rw full at q))
  | inr room ↦
      let size = length-put_ent es (file_hash url) (length url) file_id now in
      let stored : added (put_ent es (file_hash url) (length url) file_id now) ≡ added es' =
        rw room at q in
      subst (λ r. Added es url file_id now (table_of es r)) stored
        (put_ent-Added es url file_id now (λ b. ground (arith, size)))
]

-- Where `clm_files_add` does not fail, the URL is found with the new id and time, every entry for
-- another hash or length is found as before, and a table within its limit stays so.
pub files_add-Added :
    (es : List FileEnt) (url : Bytes) (file_id : Option Bytes) (now : ℕ) (es' : List FileEnt)
    → files_add es url file_id now ≡ added es'
    → Added es url file_id now es'
unfolding files_add
files_add-Added es url file_id now es' q =
    add_found-Added es url file_id now (files_find es url) es' refl q

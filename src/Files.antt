-- ===== src/Files.antt =====
-- The table of uploaded images: libclm/files.c.
-- An entry is found by the hash and the length of its data URL. A pointer to an entry is its place in
-- the list, so an entry is changed where it stands. Allocation is taken to succeed, and the wall clock
-- is an argument.
pub mod Table
mod Tests
use Prim.Native.Nat.{bit_xor}
use clm.Base.{
  ℕ, ◌*◌, ◌%◌, Bytes, Bool, ◌&&◌, Option, none, some, List, [], ◌∷◌, length, if◌then◌else◌, leb,
  ◌==◌, u64,
}

pub record FileEnt : Type 0 where
  pub hash : ℕ
  pub len : ℕ
  pub file_id : Option Bytes
  pub when : ℕ

abbrev pub files_max : ℕ
files_max = 1024

-- The loop of `file_hash`, FNV-1a.
pub hash_loop : ℕ → Bytes → ℕ
hash_loop h [] = h
hash_loop h (b ∷ s) = hash_loop (u64 (bit_xor h b * 0x100000001B3)) s

pub file_hash : Bytes → ℕ
file_hash s = hash_loop 0xCBF29CE484222325 s

abbrev pub is_for : FileEnt → ℕ → ℕ → Bool
is_for e h n = e.hash == h && e.len == n

pub find_ent : List FileEnt → ℕ → ℕ → Option FileEnt
find_ent [] h n = none
find_ent (e ∷ es) h n = let further = find_ent es h n in if is_for e h n then some e else further

pub files_find : List FileEnt → Bytes → Option FileEnt
files_find es url = find_ent es (file_hash url) (length url)

pub data AddResult : Type 0 where
  added : List FileEnt → AddResult
  no_space : AddResult

-- The entry that was found is set, or a new one at the end.
pub put_ent : List FileEnt → ℕ → ℕ → Option Bytes → ℕ → List FileEnt
put_ent [] h n file_id now = record { hash = h; len = n; file_id = file_id; when = now } ∷ []
put_ent (e ∷ es) h n file_id now =
    let further = put_ent es h n file_id now in
    if is_for e h n then record e { file_id = file_id; when = now } ∷ es else e ∷ further

-- `clm_files_add`, with what `files_find` gave.
pub add_found : List FileEnt → ℕ → ℕ → Option Bytes → ℕ → Option FileEnt → AddResult
add_found es h n file_id now (some e) = added (put_ent es h n file_id now)
add_found es h n file_id now none =
    if leb files_max (length es) then no_space else added (put_ent es h n file_id now)

pub files_add : List FileEnt → Bytes → Option Bytes → ℕ → AddResult
files_add es url file_id now =
    add_found es (file_hash url) (length url) file_id now (files_find es url)

pub files_clear : List FileEnt → List FileEnt
files_clear es = []

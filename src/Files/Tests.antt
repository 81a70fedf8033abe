-- ===== src/Files/Tests.antt =====
-- Runs of the table of uploads.
use clm.Base.{Bytes, ◌≡◌, refl, some, List, [], ◌∷◌, codes}
use clm.Files.{
  FileEnt, file_hash, hash_loop, files_find, find_ent, added, put_ent, add_found, files_add,
}
use clm.Files.Table.{Added, files_add-Added}

abbrev url : Bytes
url = codes "data:,"

abbrev table : List FileEnt
table = record { hash = 1; len = 6; file_id = some (codes "f0"); when = 3 } ∷ []

abbrev table_after : List FileEnt
table_after =
    record { hash = 1; len = 6; file_id = some (codes "f0"); when = 3 }
    ∷ record { hash = file_hash url; len = 6; file_id = some (codes "f1"); when = 9 }
    ∷ []

upload_run : files_add table url (some (codes "f1")) 9 ≡ added table_after
unfolding files_add add_found files_find find_ent put_ent file_hash hash_loop
upload_run = refl

files_add-Added_example : Added table url (some (codes "f1")) 9 table_after
files_add-Added_example = files_add-Added table url (some (codes "f1")) 9 table_after upload_run

-- ===== src/TextClean.antt =====
-- Terminal output reduced to plain text: libclm/text_clean.c.
-- The buffer is rewritten in place. What is written, `data[0..n)`, is the list `out`, its last byte
-- first, and what is unread, `data[i..len)`, is the list `rest`; each byte that is written was read
-- before, so the code never overwrites a byte of `rest`. An offset past an escape sequence is the
-- list behind it. `clean_loop` takes fuel, one for each byte at most, since an
-- escape sequence is skipped whole.
pub mod Plain
pub mod Steps
mod Tests
use mathlib.Core.List.{reverse}
use clm.Base.{
  Bytes, is_continuation, ℕ, zero, suc, ◌/◌, ◌%◌, Bool, ◌&&◌, ◌||◌, Option, none, some, List, [],
  ◌∷◌, length, if◌then◌else◌, ltb, leb, ◌==◌,
}

-- Drop the last code point already written.
pub drop_last : Bytes → Bytes
drop_last [] = []
drop_last (b ∷ out) = let more = drop_last out in if is_continuation b then more else out

-- CSI: parameters, then a final byte.
pub skip_csi : Bytes → Bytes
skip_csi [] = []
skip_csi (b ∷ rest) = if leb 0x40 b && leb b 0x7E then rest else skip_csi rest

-- OSC: runs to BEL or ESC \.
pub skip_osc : Bytes → Bytes
skip_osc [] = []
skip_osc (b ∷ []) = []
skip_osc (b ∷ c ∷ rest) =
    if b == 0x07 then c ∷ rest else if b == 0x1B && c == b'\\' then rest else skip_osc (c ∷ rest)

-- What stands behind the escape sequence, from the byte after ESC.
pub skip_escape : Bytes → Bytes
skip_escape [] = []
skip_escape (b ∷ rest) =
    if b == b'[' then skip_csi rest else if b == b']' then skip_osc rest else rest

-- One turn of the loop: what is left to read, and what is written.
pub clean_byte : ℕ → Bytes → Bytes → Bytes × Bytes
clean_byte b rest out =
    if b == 0x1B
    then (skip_escape rest, out)
    else if b == 0x08
    then (rest, drop_last out)
    else if b == b'\n' || b == b'\t'
    then (rest, b ∷ out)
    else if ltb b 0x20 || b == 0x7F
    then (rest, out)
    else (rest, b ∷ out)

pub clean_loop : ℕ → Bytes → Bytes → Bytes
clean_loop zero rest out = out
clean_loop (suc fuel) [] out = out
clean_loop (suc fuel) (b ∷ rest) out =
    let (rest', out') = clean_byte b rest out in clean_loop fuel rest' out'

-- The text left in the buffer; its length is what the function returns.
pub clean_text : Option Bytes → Bytes
clean_text none = []
clean_text (some data_bytes) = reverse (clean_loop (length data_bytes) data_bytes [])

-- ===== src/Utf8/Tests.antt =====
-- Runs on short strings of UTF-8.
use clm.Base.{
  Bytes, ◌+◌, ◌*◌, ◌≡◌, ◌↔◌, refl, inl, inr, none, some, [], ◌∷◌, ◌++◌, length, take, arith,
}
use clm.Utf8.{
  put_utf8, utf8_seq, utf8_repair, count_bad, copy_repaired, seq_rest, seq_need, continues,
  is_excluded,
}
use clm.Utf8.Repair.{IsText, done, char, utf8_repair-none, utf8_repair-some}
use clm.Utf8.Cut.{take-IsText}

-- The euro sign, and a byte that starts nothing between two letters.
abbrev euro : Bytes
euro = 0xE2 ∷ 0x82 ∷ 0xAC ∷ []

abbrev torn : Bytes
torn = b'a' ∷ 0xFF ∷ b'b' ∷ []

utf8_repair-torn : utf8_repair torn ≡ some (b'a' ∷ 0xEF ∷ 0xBF ∷ 0xBD ∷ b'b' ∷ [])
unfolding utf8_repair count_bad copy_repaired utf8_seq seq_rest seq_need
utf8_repair-torn = refl

utf8_repair-none_example : (utf8_repair euro ≡ none) ↔ IsText euro
utf8_repair-none_example = utf8_repair-none euro (ground arith)

utf8_repair-some_example :
    IsText (b'a' ∷ 0xEF ∷ 0xBF ∷ 0xBD ∷ b'b' ∷ [])
    × (5 ≡ length torn + count_bad (length torn) torn * 2)
utf8_repair-some_example = utf8_repair-some torn _ (ground arith) utf8_repair-torn

utf8_seq-euro : utf8_seq euro ≡ 3
unfolding utf8_seq seq_rest seq_need continues is_excluded
utf8_seq-euro = refl

two_euros : IsText (euro ++ euro)
unfolding put_utf8
two_euros = char 0x20AC euro (inl (omega arith)) refl (char 0x20AC [] (inl (omega arith)) refl done)

take-IsText_example : IsText (take 3 (euro ++ euro))
take-IsText_example = take-IsText (euro ++ euro) 3 two_euros (inr refl)

-- ===== src/Output/Tests.antt =====
-- Tool output on small inputs.
use clm.Base.{inl, ◌≡◌, refl, arith, Bytes, none, [], ◌∷◌, codes}
use clm.Output.{
  is_space, byte_cost, bytes_cost, spaces, word_length, est_cost, est_tokens, utf8_floor, cut_word,
  fit_words, newline_before, head_of, fit_head, keep_char, newline_behind, kept_start, tail_of,
  fit_tail, Marker, put_cut, outside, cut_output,
}
use clm.Utf8.{put_utf8}
use clm.Utf8.Repair.{IsText, done, char}
use clm.Output.Binary.{find_binary_offset}
use clm.Output.Binary.Text.{find_binary_offset-text}
use clm.Output.Cuts.{Outcome, cut_output-Outcome}
use clm.Output.Misses.{fit_tail-outside}

abbrev print : Marker → Bytes
print m = codes "[cut]"

abbrev eight : Bytes
eight = codes "abcdefgh"

cut_output-Outcome_example : Outcome print 4 eight (cut_output print 4 eight)
cut_output-Outcome_example = cut_output-Outcome print 4 eight

-- A cap of 4 on one word.
eight-outside : cut_output print 4 eight ≡ outside
unfolding is_space byte_cost bytes_cost spaces word_length est_cost est_tokens utf8_floor cut_word
    fit_words newline_before head_of fit_head keep_char newline_behind kept_start tail_of fit_tail
    put_cut cut_output
eight-outside = refl

fit_tail-outside_example : fit_tail eight 0 1 ≡ none
unfolding is_space
fit_tail-outside_example = fit_tail-outside eight 104 (codes "gfedcba") 0 1 refl refl (omega arith)

blank-length : spaces (codes "    ") ≡ 4
unfolding spaces is_space
blank-length = refl

abbrev coin : Bytes
coin = 65 ∷ 0xE2 ∷ 0x82 ∷ 0xAC ∷ []

coin-IsText : IsText coin
unfolding put_utf8
coin-IsText =
    char 65 (0xE2 ∷ 0x82 ∷ 0xAC ∷ []) (inl (omega arith)) refl
      (char 0x20AC [] (inl (omega arith)) refl done)

find_binary_offset-text_example : find_binary_offset coin ≡ 4
find_binary_offset-text_example = find_binary_offset-text coin coin-IsText (ground arith)

-- ===== src/TextClean/Tests.antt =====
-- Runs of libclm/text_clean.c on short terminal output.
use clm.Base.{Bytes, ◌≡◌, refl, some, [], ◌∷◌, ◌++◌, codes, arith}
use clm.TextClean.{clean_text, clean_loop, clean_byte, skip_escape, skip_csi, drop_last}
use clm.TextClean.Plain.{IsPlain, clean_text_plain, clean_text-IsPlain}
use clm.TextClean.Steps.{clean_loop_fuel}

-- A red word, an overstruck letter, a carriage return.
abbrev coloured : Bytes
coloured = 0x1B ∷ codes "[31mred" ++ (0x1B ∷ codes "[0m" ++ (0x08 ∷ b't' ∷ b'\r' ∷ b'\n' ∷ []))

coloured_clean : clean_text (some coloured) ≡ codes "ret\n"
unfolding clean_text clean_loop clean_byte skip_escape skip_csi drop_last
coloured_clean = refl

clean_text-IsPlain_example : IsPlain (clean_text (some coloured))
clean_text-IsPlain_example = clean_text-IsPlain (some coloured)

clean_text_plain_example : clean_text (some (codes "a\tb\n")) ≡ codes "a\tb\n"
clean_text_plain_example = clean_text_plain (codes "a\tb\n") (refl, (refl, (refl, (refl, tt))))

clean_loop_fuel_example : clean_loop 16 coloured [] ≡ clean_loop 99 coloured []
clean_loop_fuel_example = clean_loop_fuel 16 99 coloured [] (omega arith) (omega arith)

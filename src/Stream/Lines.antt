-- ===== src/Stream/Lines.antt =====
-- The chunks of a response may be cut anywhere: clm_http_data_cb_wrapper.
use clm.Agent.{AsyncTurn}
use clm.Base.{
  true-false, ◌≡◌, refl, sym, ap, ◌∙◌, Bytes, false, Option, none, some, List, [], ◌∷◌, ◌++◌,
  append-nil, append_assoc, ◌==◌, if-cases,
}
use clm.Stream.{Stream, Payload}
use clm.Stream.Feed.{handle_line, emptied, then_next, data_byte, data_cb, data_chunks}

-- A line without the newline that ends it.
abbrev IsLine : Bytes → Type 0
IsLine [] = Unit
IsLine (b ∷ s) = ((b == 10) ≡ false) × IsLine s

abbrev AreLines : List Bytes → Type 0
AreLines [] = Unit
AreLines (l ∷ ls) = IsLine l × AreLines ls

abbrev pub joined : List Bytes → Bytes
joined [] = []
joined (c ∷ l) = c ++ joined l

-- Each line with its newline.
abbrev unlines : List Bytes → Bytes
unlines [] = []
unlines (l ∷ ls) = l ++ 10 ∷ unlines ls

module _ {S : Type 0} where
  then_next_assoc :
      (o : Option (Stream S)) (h k m : Stream S → Option (Stream S))
      → ((x : Stream S) → h x ≡ then_next (k x) m)
      → then_next o h ≡ then_next (then_next o k) m
  then_next_assoc none h k m e = refl
  then_next_assoc (some x) h k m e = e x

  then_next-same :
      (o : Option (Stream S)) (h k : Stream S → Option (Stream S))
      → ((x : Stream S) → h x ≡ k x)
      → then_next o h ≡ then_next o k
  then_next-same none h k e = refl
  then_next-same (some x) h k e = e x

  emptied-next :
      (o : Option (Stream S)) (h k m : Stream S → Option (Stream S))
      → ((x : Stream S) → h (record x { line = [] }) ≡ then_next (k (record x { line = [] })) m)
      → then_next (emptied o) h ≡ then_next (then_next (emptied o) k) m
  emptied-next none h k m e = refl
  emptied-next (some x) h k m e = e x

module _ {S : Type 0} (read : S → Bytes → S × Payload) (turn : AsyncTurn) where
  -- Line by line.
  abbrev pub each_line : List Bytes → Stream S → Option (Stream S)
  each_line [] f = some f
  each_line (l ∷ ls) f =
      then_next (emptied (handle_line read turn (record f { line = l }))) (each_line ls)

  -- A chunk that is cut in two is taken as the two.
  data_cb-append :
      (s t : Bytes) (f : Stream S)
      → data_cb read turn (s ++ t) f ≡ then_next (data_cb read turn s f) (data_cb read turn t)
  unfolding data_cb
  data_cb-append [] t f = refl
  data_cb-append (b ∷ s) t f =
      then_next_assoc (data_byte read turn f b) (data_cb read turn (s ++ t)) (data_cb read turn s)
        (data_cb read turn t) (data_cb-append s t)

  data_chunks-joined :
      (l : List Bytes) (f : Stream S) → data_chunks read turn l f ≡ data_cb read turn (joined l) f
  unfolding data_cb data_chunks
  data_chunks-joined [] f = refl
  data_chunks-joined (c ∷ l) f =
      then_next-same (data_cb read turn c f) (data_chunks read turn l)
        (data_cb read turn (joined l)) (data_chunks-joined l)
      ∙ sym (data_cb-append c (joined l) f)

  line-kept :
      (s : Bytes) (f : Stream S)
      → IsLine s
      → data_cb read turn s f ≡ some (record f { line = f.line ++ s })
  unfolding data_cb data_byte
  line-kept [] f h = ap (λ x. some (record f { line = x })) (sym (append-nil f.line))
  line-kept (b ∷ s) f h =
      if-cases (λ o. then_next o (data_cb read turn s) ≡ some (record f { line = f.line ++ b ∷ s }))
        (b == 10) (λ e. absurd (true-false (sym e ∙ h.0)))
        (λ e.
          line-kept s (record f { line = f.line ++ b ∷ [] }) h.1
          ∙ ap (λ x. some (record f { line = x })) (append_assoc f.line (b ∷ []) s))

  line-ended :
      (l s : Bytes) (f : Stream S)
      → IsLine l
      → f.line ≡ []
      → data_cb read turn (l ++ 10 ∷ s) f
        ≡ then_next (emptied (handle_line read turn (record f { line = l }))) (data_cb read turn s)
  unfolding data_cb data_byte
  line-ended l s f h e =
      data_cb-append l (10 ∷ s) f
      ∙ ap (λ o. then_next o (data_cb read turn (10 ∷ s))) (line-kept l f h)
      ∙ ap
          (λ x.
            then_next (emptied (handle_line read turn (record f { line = x ++ l })))
              (data_cb read turn s))
          e

  lines-fed :
      (ls : List Bytes) (rest : Bytes) (f : Stream S)
      → AreLines ls
      → IsLine rest
      → f.line ≡ []
      → data_cb read turn (unlines ls ++ rest) f
        ≡ then_next (each_line ls f) (λ g. some (record g { line = rest }))
  lines-fed [] rest f a h e = line-kept rest f h ∙ ap (λ x. some (record f { line = x ++ rest })) e
  lines-fed (l ∷ ls) rest f a h e =
      ap (λ x. data_cb read turn x f) (append_assoc l (10 ∷ unlines ls) rest)
      ∙ line-ended l (unlines ls ++ rest) f a.0 e
      ∙ emptied-next (handle_line read turn (record f { line = l }))
          (data_cb read turn (unlines ls ++ rest)) (each_line ls)
          (λ g. some (record g { line = rest }))
          (λ g. lines-fed ls rest (record g { line = [] }) a.1 h refl)

  -- However a response is cut into chunks, it is taken line by line, each line once and whole, and what
  -- is behind the last newline is kept for the next chunk; for a turn that has no part of a line yet.
  pub data_chunks-lines :
      (chunks ls : List Bytes) (rest : Bytes) (f : Stream S)
      → AreLines ls
      → IsLine rest
      → joined chunks ≡ unlines ls ++ rest
      → f.line ≡ []
      → data_chunks read turn chunks f
        ≡ then_next (each_line ls f) (λ g. some (record g { line = rest }))
  data_chunks-lines chunks ls rest f a h e z =
      data_chunks-joined chunks f ∙ ap (λ x. data_cb read turn x f) e ∙ lines-fed ls rest f a h z

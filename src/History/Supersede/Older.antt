-- ===== src/History/Supersede/Older.antt =====
-- Which results superseding stubs.
use mathlib.Core.List.{reverse, reverse-append}
use clm.Base.{
  ℕ, suc, ◌+◌, ◌≤◌, ◌≡◌, refl, ap, ◌∙◌, inl, inr, Bytes, Bool, true, false, ◌&&◌, none, some, [],
  ◌∷◌, ◌++◌, append-nil, append_assoc, length, length-reverse, names, before_nul, bytes_eq_refl,
  arith, Bool-cases,
}
use clm.Utf8.Chars.{AreBytes}
use clm.Utf8.Repair.{IsText}
use clm.History.{Message, History, u16_max}
use clm.History.Content.{set_content_fit}
use clm.History.Compact.{ok, find_back}
use clm.History.Compact.Walk.{count, count-reverse}
use clm.History.Wire.{is_head, is_tool}
use clm.History.Supersede.{
  before_batch, or_all, is_stubbed, stubbed, supersede_one, supersede_before, supersede_tool,
}

-- What stands behind the older messages: the last message with calls, and all that is behind it; or
-- nothing, where no message has calls.
pub data IsCurrent (old : History) : History → Type 0 where
  opened :
      (head : Message) (batch : History)
      → is_head head ≡ true
      → count is_head batch ≡ 0
      → IsCurrent old (head ∷ batch)
  unopened : count is_head old ≡ 0 → IsCurrent old []

-- A result of the tool.
abbrev pub is_result : Bytes → Message → Bool
is_result tool_name m = is_tool m && names m.tool_name tool_name

-- The stub in the place of a result: what it answers stays, the images are gone.
abbrev pub stub_of : Message → Bytes → Message
stub_of m stub = record m {
  content = some stub;
  content_len = length stub;
  content_compressed = false;
  attachments = [];
}

-- Each result of the tool becomes the stub, those that are one already are left, and so is all else;
-- `n` results are stubbed.
pub data IsSuperseded (tool_name stub : Bytes) : ℕ → History → History → Type 0 where
  at_end : IsSuperseded tool_name stub 0 [] []
  other :
      (m : Message) (n : ℕ) (h h' : History)
      → is_result tool_name m ≡ false
      → IsSuperseded tool_name stub n h h'
      → IsSuperseded tool_name stub n (m ∷ h) (m ∷ h')
  again :
      (m : Message) (n : ℕ) (h h' : History)
      → is_result tool_name m ≡ true
      → is_stubbed m stub ≡ true
      → IsSuperseded tool_name stub n h h'
      → IsSuperseded tool_name stub n (m ∷ h) (m ∷ h')
  result :
      (m : Message) (n : ℕ) (h h' : History)
      → is_result tool_name m ≡ true
      → is_stubbed m stub ≡ false
      → IsSuperseded tool_name stub n h h'
      → IsSuperseded tool_name stub (suc n) (m ∷ h) (stub_of m stub ∷ h')

-- A stub that a message can hold, and that a C string can.
pub record IsStub (stub : Bytes) : Type 0 where
  pub bytes : AreBytes stub
  pub text : IsText stub
  pub fits : length stub ≤ u16_max
  pub no_nul : before_nul stub ≡ stub

find_head :
    (batch : History) (head : Message) (back : History)
    → count is_head batch ≡ 0
    → is_head head ≡ true
    → find_back is_head 1 0 (batch ++ head ∷ back) ≡ some (length back)
unfolding find_back
find_head [] head back c h = rw h refl
find_head (m ∷ batch) head back c h = elim (Bool-cases (is_head m)) [
  | inl q ↦ absurd (ground (arith, c, q))
  | inr q ↦ rw q (find_head batch head back (ground (arith, c, q)) h)
]

find_no_head : (h : History) → count is_head h ≡ 0 → find_back is_head 1 0 h ≡ none
unfolding find_back
find_no_head [] c = refl
find_no_head (m ∷ h) c = elim (Bool-cases (is_head m)) [
  | inl q ↦ absurd (ground (arith, c, q))
  | inr q ↦ rw q (find_no_head h (ground (arith, c, q)))
]

before_batch-length :
    (old rest : History) → IsCurrent old rest → before_batch (old ++ rest) ≡ length old
unfolding before_batch
before_batch-length old [] (unopened c) =
    rw (append-nil old)
      (ap (or_all old) (find_no_head (reverse old) (count-reverse is_head old ∙ c)))
before_batch-length old (x ∷ xs) (opened head batch h c) =
    let back : reverse (old ++ head ∷ batch) ≡ reverse batch ++ head ∷ reverse old =
      reverse-append old (head ∷ batch)
      ∙ ap (λ l. l ++ reverse old) (reverse-append (head ∷ []) batch)
      ∙ append_assoc (reverse batch) (head ∷ []) (reverse old) in
    ap (or_all (old ++ head ∷ batch)) (
      ap (find_back is_head 1 0) back
      ∙ find_head (reverse batch) head (reverse old) (count-reverse is_head batch ∙ c) h)
    ∙ length-reverse old

stubbed-stub_of : (m : Message) (stub : Bytes) → IsStub stub → stubbed m stub ≡ stub_of m stub
unfolding stubbed
stubbed-stub_of m stub s =
    ap (λ (x : Message). record x { attachments = [] })
      (set_content_fit m stub s.bytes s.text s.fits)

counted : (k n : ℕ) (h : History) → k ≡ n → ◌≡◌ {A = ℕ × History} (k, h) (n, h)
counted k n h e = ap (λ i. (i, h)) e

-- What the loop makes of the older messages; the others stay.
superseded :
    (old rest : History) (tool_name stub : Bytes)
    → IsStub stub
    → (n : ℕ) × (old' : History) × (supersede_before (length old) (old ++ rest) tool_name stub
        ≡ (n, old' ++ rest))
      × IsSuperseded tool_name stub n old old'
unfolding supersede_before supersede_one
superseded [] rest tool_name stub s = (0, [], refl, at_end)
superseded (m ∷ old) rest tool_name stub s =
    let (n, old', e, p) = superseded old rest tool_name stub s in
    elim (Bool-cases (is_result tool_name m)) [
      | inr q ↦ (
        n,
        m ∷ old',
        rw (q, e) (counted (0 + n) n (m ∷ (old' ++ rest)) (omega arith)),
        other m n old old' q p,
      )
      | inl q ↦ elim (Bool-cases (is_stubbed m stub)) [
        | inl a ↦ (
          n,
          m ∷ old',
          rw (q, a, e) (counted (0 + n) n (m ∷ (old' ++ rest)) (omega arith)),
          again m n old old' q a p,
        )
        | inr a ↦ (
          suc n,
          stub_of m stub ∷ old',
          rw (q, a, e, stubbed-stub_of m stub s)
              (counted (1 + n) (suc n) (stub_of m stub ∷ (old' ++ rest)) (omega arith)),
          result m n old old' q a p,
        )
      ]
    ]

stub_of-stubbed :
    (m : Message) (stub : Bytes) → IsStub stub → is_stubbed (stub_of m stub) stub ≡ true
unfolding names
stub_of-stubbed m stub s = rw (s.no_nul) (bytes_eq_refl stub)

-- What is superseded once stays as it is.
settled :
    (tool_name stub : Bytes) (n : ℕ) (h h' : History)
    → IsStub stub
    → IsSuperseded tool_name stub n h h'
    → (length h' ≡ length h)
      × ((rest : History)
          → supersede_before (length h') (h' ++ rest) tool_name stub ≡ (0, h' ++ rest))
unfolding supersede_before supersede_one
settled tool_name stub n h h' s at_end = (refl, λ rest. refl)
settled tool_name stub n h h' s (other m k a b q p) =
    let (l, e) = settled tool_name stub k a b s p in (omega (arith, l), λ rest. rw (q, e rest) refl)
settled tool_name stub n h h' s (again m k a b q d p) =
    let (l, e) = settled tool_name stub k a b s p in
    (omega (arith, l), λ rest. rw (q, d, e rest) refl)
settled tool_name stub n h h' s (result m k a b q d p) =
    let (l, e) = settled tool_name stub k a b s p in
    (omega (arith, l), λ rest. rw (q, stub_of-stubbed m stub s, e rest) refl)

-- No message gets or loses calls.
heads-superseded :
    (tool_name stub : Bytes) (n : ℕ) (h h' : History)
    → IsSuperseded tool_name stub n h h'
    → count is_head h' ≡ count is_head h
heads-superseded tool_name stub n h h' at_end = refl
heads-superseded tool_name stub n h h' (other m k a b q p) =
    omega (arith, heads-superseded tool_name stub k a b p)
heads-superseded tool_name stub n h h' (again m k a b q d p) =
    omega (arith, heads-superseded tool_name stub k a b p)
heads-superseded tool_name stub n h h' (result m k a b q d p) =
    omega (arith, heads-superseded tool_name stub k a b p)

IsCurrent-superseded :
    (tool_name stub : Bytes) (n : ℕ) (h h' rest : History)
    → IsSuperseded tool_name stub n h h'
    → IsCurrent h rest
    → IsCurrent h' rest
IsCurrent-superseded tool_name stub n h h' [] p (unopened c) =
    unopened (heads-superseded tool_name stub n h h' p ∙ c)
IsCurrent-superseded tool_name stub n h h' (x ∷ xs) p (opened head batch q c) =
    opened head batch q c

-- The results of the tool that stand before the last message with calls become the stub, each that is not
-- one yet, and are counted; all other messages stay as they are, those of the current batch among
-- them, and a second pass changes nothing. Without a message with calls this holds of all
-- messages. The stub is a C string in UTF-8 that a message can hold.
pub supersede_tool-IsSuperseded :
    (old rest : History) (tool_name stub : Bytes)
    → IsCurrent old rest
    → IsStub stub
    → (n : ℕ) × (old' : History) × (supersede_tool (old ++ rest) (some tool_name) (some stub)
        ≡ ok (n, old' ++ rest))
      × IsSuperseded tool_name stub n old old'
      × (supersede_tool (old' ++ rest) (some tool_name) (some stub) ≡ ok (0, old' ++ rest))
unfolding supersede_tool
supersede_tool-IsSuperseded old rest tool_name stub c s =
    let (n, old', e, p) = superseded old rest tool_name stub s in
    let (l, rests) = settled tool_name stub n old old' s p in
    (
      n,
      old',
      ap ok (
          ap (λ k. supersede_before k (old ++ rest) tool_name stub) (before_batch-length old rest c)
          ∙ e),
      p,
      ap ok (
          ap (λ k. supersede_before k (old' ++ rest) tool_name stub)
            (before_batch-length old' rest
              (IsCurrent-superseded tool_name stub n old old' rest p c))
          ∙ rests rest),
    )

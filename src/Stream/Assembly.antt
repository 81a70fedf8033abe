-- ===== src/Stream/Assembly.antt =====
-- How tool calls are put together from deltas: stream_merge_tool_calls and stream_build_tool_calls.
use clm.Base.{
  ℕ, zero, suc, ◌+◌, ◌<◌, ◌≡◌, refl, sym, ap, ◌∙◌, Bytes, Bool, true, false, Option, none, some,
  List, [], ◌∷◌, append_assoc, length, get_or, if◌then◌else◌, arith, true-false,
}
use clm.Stream.{
  StreamCall, Delta, no_call, stream_get_call, or_first, copied_once, appended, merged, merge_one,
  put_first, put_rest, merge_at, index_at, merge_delta, then_merge, merge_tool_calls,
}
use clm.Tools.Dispatch.{Field, absent, not_string, string}

abbrev pub call_at : List StreamCall → ℕ → StreamCall
call_at l k = get_or l k no_call

abbrev pub text_of : Field → Option Bytes
text_of absent = none
text_of not_string = none
text_of (string s) = some s

-- What a delta brings for its call.
abbrev pub piece : Delta → StreamCall
piece d = record { id = text_of d.id; name = text_of d.name; args = d.arguments }

-- A call with one more piece: the first id and the first name stay, and arguments are appended.
abbrev pub add : StreamCall → StreamCall → StreamCall
add c p = record {
  id = or_first c.id p.id;
  name = or_first c.name p.name;
  args = appended c.args p.args;
}

abbrev is_same : ℕ → ℕ → Bool
is_same zero zero = true
is_same zero (suc k) = false
is_same (suc j) zero = false
is_same (suc j) (suc k) = is_same j k

abbrev pub is_for : ℕ → Option ℕ → Bool
is_for k none = false
is_for k (some j) = is_same k j

-- All that deltas bring for the call `k`.
abbrev pub pieces : ℕ → ℕ → List Delta → StreamCall
pieces k i [] = no_call
pieces k i (d ∷ ds) =
    let rest = pieces k (i + 1) ds in
    if is_for k (index_at i d.index) then add (piece d) rest else rest

or_first_assoc : (a b c : Option Bytes) → or_first (or_first a b) c ≡ or_first a (or_first b c)
or_first_assoc none b c = refl
or_first_assoc (some a) b c = refl

appended_assoc : (a b c : Option Bytes) → appended (appended a b) c ≡ appended a (appended b c)
appended_assoc a b none = refl
appended_assoc a none (some c) = refl
appended_assoc none (some b) (some c) = refl
appended_assoc (some a) (some b) (some c) = ap some (append_assoc a b c)

add_assoc : (c p q : StreamCall) → add (add c p) q ≡ add c (add p q)
add_assoc c p q =
    rw
      (
        or_first_assoc c.id p.id q.id,
        or_first_assoc c.name p.name q.name,
        appended_assoc c.args p.args q.args,
      )
      refl

eq-of_is_same : (j k : ℕ) → is_same j k ≡ true → j ≡ k
eq-of_is_same zero zero e = refl
eq-of_is_same zero (suc k) e = absurd (true-false (sym e))
eq-of_is_same (suc j) zero e = absurd (true-false (sym e))
eq-of_is_same (suc j) (suc k) e = ap suc (eq-of_is_same j k e)

add-no_call : (c : StreamCall) → add c no_call ≡ c
add-no_call c = blank c.id c.name
  where
    blank :
        (id name : Option Bytes)
        → Path StreamCall
            (record { id = or_first id none; name = or_first name none; args = c.args })
            (record { id = id; name = name; args = c.args })
    blank none none = refl
    blank none (some n) = refl
    blank (some i) none = refl
    blank (some i) (some n) = refl

some-inj {ℓ} : {A : Type ℓ} {x y : A} → Path (Option A) (some x) (some y) → x ≡ y
some-inj {x} e = ap (λ o. elim o [ none ↦ x | some z ↦ z ]) e

none-some {ℓ} : {A : Type ℓ} {x : A} → Path (Option A) none (some x) → ⊥
none-some e = cc

or_first-copied_once :
    (o : Option Bytes) (f : Field) (r : Option Bytes)
    → copied_once o f ≡ some r
    → r ≡ or_first o (text_of f)
or_first-copied_once (some old) f r e = sym (some-inj e)
or_first-copied_once none absent r e = sym (some-inj e)
or_first-copied_once none not_string r e = absurd (none-some e)
or_first-copied_once none (string s) r e = sym (some-inj e)

add-merged :
    (c : StreamCall) (d : Delta) (i n : Option (Option Bytes)) (c' : StreamCall)
    → copied_once c.id d.id ≡ i
    → copied_once c.name d.name ≡ n
    → merged c i n d.arguments ≡ some c'
    → c' ≡ add c (piece d)
add-merged c d none n c' p q e = absurd (none-some e)
add-merged c d (some i) none c' p q e = absurd (none-some e)
add-merged c d (some i) (some n) c' p q e =
    sym (some-inj e)
    ∙ rw (or_first-copied_once c.id d.id i p, or_first-copied_once c.name d.name n q) refl

-- The calls once the `k`-th has a piece more.
abbrev HasPiece : List StreamCall → ℕ → Delta → List StreamCall → Type 0
HasPiece l k d l' =
    (j : ℕ) → call_at l' j ≡ (if is_same j k then add (call_at l k) (piece d) else call_at l j)

first-HasPiece :
    (c : StreamCall) (l : List StreamCall) (d : Delta) (o : Option StreamCall)
    (l' : List StreamCall)
    → merge_one c d ≡ o
    → put_first o l ≡ some l'
    → HasPiece (c ∷ l) zero d l'
first-HasPiece c l d none l' p e j = absurd (none-some e)
first-HasPiece c l d (some c') l' p e zero =
    ap (λ x. call_at x zero) (sym (some-inj e))
    ∙ add-merged c d (copied_once c.id d.id) (copied_once c.name d.name) c' refl refl p
first-HasPiece c l d (some c') l' p e (suc j) = ap (λ x. call_at x (suc j)) (sym (some-inj e))

rest-HasPiece :
    (c : StreamCall) (l : List StreamCall) (k : ℕ) (d : Delta) (o : Option (List StreamCall))
    (l' : List StreamCall)
    → ((m : List StreamCall) → o ≡ some m → HasPiece l k d m)
    → put_rest c o ≡ some l'
    → HasPiece (c ∷ l) (suc k) d l'
rest-HasPiece c l k d none l' h e j = absurd (none-some e)
rest-HasPiece c l k d (some m) l' h e zero = ap (λ x. call_at x zero) (sym (some-inj e))
rest-HasPiece c l k d (some m) l' h e (suc j) =
    ap (λ x. call_at x (suc j)) (sym (some-inj e)) ∙ h m refl j

merge_at-HasPiece :
    (l : List StreamCall) (k : ℕ) (d : Delta) (l' : List StreamCall)
    → k < length l
    → merge_at l k d ≡ some l'
    → HasPiece l k d l'
unfolding merge_at
merge_at-HasPiece [] k d l' h e = absurd (omega arith)
merge_at-HasPiece (c ∷ l) zero d l' h e = first-HasPiece c l d (merge_one c d) l' refl e
merge_at-HasPiece (c ∷ l) (suc k) d l' h e =
    rest-HasPiece c l k d (merge_at l k d) l' (λ m q. merge_at-HasPiece l k d m (omega arith) q) e

call_at-stream_get_call :
    (l : List StreamCall) (k j : ℕ) → call_at (stream_get_call l k) j ≡ call_at l j
unfolding stream_get_call
call_at-stream_get_call [] zero zero = refl
call_at-stream_get_call [] zero (suc j) = refl
call_at-stream_get_call [] (suc k) zero = refl
call_at-stream_get_call [] (suc k) (suc j) = call_at-stream_get_call [] k j
call_at-stream_get_call (c ∷ l) zero j = refl
call_at-stream_get_call (c ∷ l) (suc k) zero = refl
call_at-stream_get_call (c ∷ l) (suc k) (suc j) = call_at-stream_get_call l k j

stream_get_call-lt : (l : List StreamCall) (k : ℕ) → k < length (stream_get_call l k)
unfolding stream_get_call
stream_get_call-lt [] zero = omega arith
stream_get_call-lt [] (suc k) = omega (arith, stream_get_call-lt [] k)
stream_get_call-lt (c ∷ l) zero = omega arith
stream_get_call-lt (c ∷ l) (suc k) = omega (arith, stream_get_call-lt l k)

delta-IsMerged :
    (l : List StreamCall) (o : Option ℕ) (d : Delta) (l' : List StreamCall) (j : ℕ)
    → merge_delta l o d ≡ some l'
    → call_at l' j ≡ (if is_for j o then add (call_at l j) (piece d) else call_at l j)
delta-IsMerged l none d l' j e = ap (λ x. call_at x j) (sym (some-inj e))
delta-IsMerged l (some k) d l' j e =
    let g = stream_get_call l k in
    let at = merge_at-HasPiece g k d l' (stream_get_call-lt l k) e j in
    at ∙ placed (is_same j k) refl
  where
    placed :
        (b : Bool)
        → is_same j k ≡ b
        → (if b
            then add (call_at (stream_get_call l k) k) (piece d)
            else call_at (stream_get_call l k) j)
          ≡ (if b then add (call_at l j) (piece d) else call_at l j)
    placed true q =
        ap (λ c. add c (piece d))
          (call_at-stream_get_call l k k ∙ ap (call_at l) (sym (eq-of_is_same j k q)))
    placed false q = call_at-stream_get_call l k j

-- The deltas of an event, once they are merged: each call is what it was with all pieces for it, in their
-- order, so that its arguments are the fragments one behind the other and its id and name the first ones.
pub merge_tool_calls-pieces :
    (ds : List Delta) (i : ℕ) (l l' : List StreamCall) (k : ℕ)
    → merge_tool_calls i ds l ≡ some l'
    → call_at l' k ≡ add (call_at l k) (pieces k i ds)
unfolding merge_tool_calls
merge_tool_calls-pieces [] i l l' k e =
    ap (λ x. call_at x k) (sym (some-inj e)) ∙ sym (add-no_call (call_at l k))
merge_tool_calls-pieces (d ∷ ds) i l l' k e =
    merged_then (merge_delta l (index_at i d.index) d)
      (λ m q. delta-IsMerged l (index_at i d.index) d m k q)
      (λ m q. merge_tool_calls-pieces ds (i + 1) m l' k q) e
  where
    joined :
        (b : Bool) (p : StreamCall)
        → add (if b then add (call_at l k) (piece d) else call_at l k) p
          ≡ add (call_at l k) (if b then add (piece d) p else p)
    joined true p = add_assoc (call_at l k) (piece d) p
    joined false p = refl

    merged_then :
        (o : Option (List StreamCall))
        → ((m : List StreamCall)
            → o ≡ some m
            → call_at m k ≡ (
                if is_for k (index_at i d.index) then add (call_at l k) (piece d) else call_at l k))
        → ((m : List StreamCall)
            → merge_tool_calls (i + 1) ds m ≡ some l'
            → call_at l' k ≡ add (call_at m k) (pieces k (i + 1) ds))
        → then_merge o (merge_tool_calls (i + 1) ds) ≡ some l'
        → call_at l' k ≡ add (call_at l k) (pieces k i (d ∷ ds))
    merged_then none h r q = absurd (none-some q)
    merged_then (some m) h r q =
        r m q
        ∙ ap (λ c. add c (pieces k (i + 1) ds)) (h m refl)
        ∙ joined (is_for k (index_at i d.index)) (pieces k (i + 1) ds)

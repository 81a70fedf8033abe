-- ===== src/Tools/Counts.antt =====
-- How many invocations of a batch there are of a kind, and how an assignment to one changes that.
use clm.Agent.Waiting.{bit}
use clm.Base.{
  ℕ, zero, suc, ◌+◌, ◌≤◌, ◌<◌, ◌≡◌, ◌≢◌, refl, ap, Bool, true, false, List, [], ◌∷◌, ◌++◌, map,
  length, get_or, arith,
}
use clm.Tools.{Invocation, no_inv, modify_at}

abbrev pub count {ℓ} : {A : Type ℓ} → (A → Bool) → List A → ℕ
count p [] = 0
count p (x ∷ l) = bit (p x) + count p l

abbrev pub at : List Invocation → ℕ → Invocation
at l i = get_or l i no_inv

pub count-append {ℓ} :
    {A : Type ℓ} (p : A → Bool) (l l' : List A) → count p (l ++ l') ≡ count p l + count p l'
count-append p [] l' = omega arith
count-append p (x ∷ l) l' = omega (arith, count-append p l l')

pub open-lt : (l : List Invocation) (i : ℕ) → (at l i).completed ≡ false → i < length l
open-lt [] i h = cc
open-lt (v ∷ l) zero h = omega arith
open-lt (v ∷ l) (suc i) h = omega (arith, open-lt l i h)

pub count-modify :
    (p : Invocation → Bool) (f : Invocation → Invocation) (l : List Invocation) (i : ℕ)
    → i < length l
    → count p (modify_at i f l) + bit (p (at l i)) ≡ count p l + bit (p (f (at l i)))
count-modify p f [] i h = absurd (omega arith)
count-modify p f (v ∷ l) zero h = omega arith
count-modify p f (v ∷ l) (suc i) h = omega (arith, count-modify p f l i (omega arith))

pub count-modify_same :
    (p : Invocation → Bool) (f : Invocation → Invocation) (l : List Invocation) (i : ℕ)
    → i < length l
    → p (f (at l i)) ≡ p (at l i)
    → count p (modify_at i f l) ≡ count p l
count-modify_same p f l i h e = omega (arith, count-modify p f l i h, ap bit e)

pub count-map_eq :
    (p : Invocation → Bool) (f : Invocation → Invocation) (l : List Invocation)
    → ((v : Invocation) → p (f v) ≡ p v)
    → count p (map f l) ≡ count p l
count-map_eq p f [] h = refl
count-map_eq p f (v ∷ l) h = rw (h v, count-map_eq p f l h)

pub count-map_le :
    (p : Invocation → Bool) (f : Invocation → Invocation) (l : List Invocation)
    → ((v : Invocation) → bit (p (f v)) ≤ bit (p v))
    → count p (map f l) ≤ count p l
count-map_le p f [] h = omega arith
count-map_le p f (v ∷ l) h = omega (arith, h v, count-map_le p f l h)

pub count-le :
    (p q : Invocation → Bool) (l : List Invocation)
    → ((v : Invocation) → bit (p v) ≤ bit (q v))
    → count p l ≤ count q l
count-le p q [] h = omega arith
count-le p q (v ∷ l) h = omega (arith, h v, count-le p q l h)

pub count-at :
    (p : Invocation → Bool) (l : List Invocation) (i : ℕ)
    → i < length l
    → bit (p (at l i)) ≤ count p l
count-at p [] i h = absurd (omega arith)
count-at p (v ∷ l) zero h = omega arith
count-at p (v ∷ l) (suc i) h = omega (arith, count-at p l i (omega arith))

pub at-modify :
    (f : Invocation → Invocation) (l : List Invocation) (i : ℕ)
    → i < length l
    → at (modify_at i f l) i ≡ f (at l i)
at-modify f [] i h = absurd (omega arith)
at-modify f (v ∷ l) zero h = refl
at-modify f (v ∷ l) (suc i) h = at-modify f l i (omega arith)

pub at-modify_other :
    (f : Invocation → Invocation) (l : List Invocation) (i j : ℕ)
    → i ≢ j
    → at (modify_at i f l) j ≡ at l j
at-modify_other f [] i j h = refl
at-modify_other f (v ∷ l) zero zero h = absurd (h refl)
at-modify_other f (v ∷ l) zero (suc j) h = refl
at-modify_other f (v ∷ l) (suc i) zero h = refl
at-modify_other f (v ∷ l) (suc i) (suc j) h = at-modify_other f l i j (λ e. h (ap suc e))

pub length-modify :
    (f : Invocation → Invocation) (l : List Invocation) (i : ℕ)
    → length (modify_at i f l) ≡ length l
length-modify f [] i = refl
length-modify f (v ∷ l) zero = refl
length-modify f (v ∷ l) (suc i) = ap suc (length-modify f l i)

count-bound : (p : Invocation → Bool) (l : List Invocation) → count p l ≤ length l
count-bound p [] = omega arith
count-bound p (v ∷ l) = ground (arith, count-bound p l)

pub count-full :
    (p : Invocation → Bool) (l : List Invocation) (i : ℕ)
    → count p l ≡ length l
    → i < length l
    → p (at l i) ≡ true
count-full p [] i e h = absurd (omega arith)
count-full p (v ∷ l) zero e h =
    let one : bit (p v) ≡ 1 = ground (arith, count-bound p l) in ground arith
count-full p (v ∷ l) (suc i) e h =
    let rest : count p l ≡ length l = ground (arith, count-bound p l) in
    count-full p l i rest (omega arith)

pub count-none :
    (p : Invocation → Bool) (l : List Invocation) (i : ℕ)
    → count p l ≡ 0
    → p no_inv ≡ false
    → p (at l i) ≡ false
count-none p [] i e h = h
count-none p (v ∷ l) zero e h = let none : bit (p v) ≡ 0 = omega (arith, e) in ground arith
count-none p (v ∷ l) (suc i) e h = count-none p l i (omega (arith, e)) h

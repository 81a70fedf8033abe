-- ===== src/History/Supersede/Same.antt =====
-- What superseding leaves alone.
use clm.Base.{
  ℕ, zero, suc, ◌≡◌, refl, inl, inr, Bytes, ◌&&◌, none, some, [], ◌∷◌, names, Bool-cases,
}
use clm.History.{Message, History}
use clm.History.Content.{set_content-SameFrame}
use clm.History.Wire.{is_tool}
use clm.History.Supersede.{is_stubbed, stubbed, supersede_one, supersede_before}

-- The parts of a message that link calls and results.
pub record SameLinks (a b : Message) : Type 0 where
  pub role : a.role ≡ b.role
  pub tool_call_id : a.tool_call_id ≡ b.tool_call_id
  pub tool_name : a.tool_name ≡ b.tool_name
  pub tool_calls : a.tool_calls ≡ b.tool_calls

abbrev pub AllSame : History → History → Type 0
AllSame [] [] = Unit
AllSame [] (y ∷ ys) = ⊥
AllSame (x ∷ xs) [] = ⊥
AllSame (x ∷ xs) (y ∷ ys) = SameLinks x y × AllSame xs ys

SameLinks-refl : (m : Message) → SameLinks m m
SameLinks-refl m = record { role = refl; tool_call_id = refl; tool_name = refl; tool_calls = refl }

AllSame-refl : (h : History) → AllSame h h
AllSame-refl [] = tt
AllSame-refl (m ∷ h) = (SameLinks-refl m, AllSame-refl h)

supersede_one-SameLinks :
    (m : Message) (tool_name stub : Bytes) → SameLinks (supersede_one m tool_name stub).1 m
unfolding supersede_one stubbed
supersede_one-SameLinks m tool_name stub =
    let same = set_content-SameFrame m (some stub) none in
    elim (Bool-cases (is_tool m && names m.tool_name tool_name)) [
      | inr other ↦ rw other (SameLinks-refl m)
      | inl it ↦ elim (Bool-cases (is_stubbed m stub)) [
        | inl old ↦ rw (it, old) (SameLinks-refl m)
        | inr new ↦
            rw (it, new)
              (record {
                role = same.role;
                tool_call_id = same.tool_call_id;
                tool_name = same.tool_name;
                tool_calls = same.tool_calls;
              })
      ]
    ]

pub supersede_before-AllSame :
    (k : ℕ) (h : History) (tool_name stub : Bytes)
    → AllSame (supersede_before k h tool_name stub).1 h
unfolding supersede_before
supersede_before-AllSame zero h tool_name stub = AllSame-refl h
supersede_before-AllSame (suc k) [] tool_name stub = tt
supersede_before-AllSame (suc k) (m ∷ h) tool_name stub =
    (supersede_one-SameLinks m tool_name stub, supersede_before-AllSame k h tool_name stub)

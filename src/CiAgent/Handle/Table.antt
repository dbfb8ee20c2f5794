-- ===== src/CiAgent/Handle/Table.antt =====
-- g_spawned of ci/agent/agent.cpp: finding, erasing and assigning names.
use vla_cpp.Common.{
  ◌≡◌, ◌≢◌, refl, ◌∙◌, inl, inr, ◌⊎◌, false, none, some, [], ◌∷◌, arith, Bool-cases,
}
use mathlib.Core.Option.{some-injective}
use vla_cpp.Common.Int.{ℤ}
use vla_cpp.HfFetch.Names.{Str}
use vla_cpp.HfFetch.Names.Match.{str_eq, str_eq_iff}
use vla_cpp.CiAgent.Handle.{Spawned, find, erase, assign}

-- The process is one of the map's.
abbrev pub Has : ℤ → Spawned → Type 0
Has q [] = ⊥
Has q ((n, pid) ∷ m) = (q ≡ pid) ⊎ Has q m

-- Each name once, as in a std::map.
abbrev pub Once : Spawned → Type 0
Once [] = Unit
Once ((n, pid) ∷ m) = (find n m ≡ none) × Once m

pub find-erase : (n : Str) (m : Spawned) → Once m → find n (erase n m) ≡ none
unfolding find erase
find-erase n [] h = refl
find-erase n ((k, pid) ∷ m) (fresh, h) = elim (Bool-cases (str_eq k n)) [
  | inl same ↦ rw same (rw (str_eq_iff k n same) at fresh)
  | inr other ↦ rw (other, find, other) (find-erase n m h)
]

find-erase_other : (n k : Str) (m : Spawned) → find k m ≡ none → find k (erase n m) ≡ none
unfolding find erase
find-erase_other n k [] h = refl
find-erase_other n k ((j, pid) ∷ m) h = elim (Bool-cases (str_eq j k)) [
  | inl same ↦ absurd (ground (arith, same, h))
  | inr other ↦ elim (Bool-cases (str_eq j n)) [
    | inl gone ↦ rw gone (rw other at h)
    | inr stays ↦ rw (stays, other, find) (find-erase_other n k m (rw other at h))
  ]
]

pub erase-Once : (n : Str) (m : Spawned) → Once m → Once (erase n m)
unfolding erase
erase-Once n [] h = tt
erase-Once n ((k, pid) ∷ m) (fresh, h) = elim (Bool-cases (str_eq k n)) [
  | inl same ↦ rw same h
  | inr other ↦ rw other (find-erase_other n k m fresh, erase-Once n m h)
]

str_eq_comm : (s t : Str) → str_eq s t ≡ str_eq t s
unfolding str_eq
str_eq_comm [] [] = refl
str_eq_comm [] (c ∷ t) = refl
str_eq_comm (c ∷ s) [] = refl
str_eq_comm (c ∷ s) (d ∷ t) = ground (arith, str_eq_comm s t)

find-assign_other :
    (n k : Str) (p : ℤ) (m : Spawned)
    → str_eq n k ≡ false
    → find k m ≡ none
    → find k (assign n p m) ≡ none
unfolding find assign
find-assign_other n k p [] d h = rw d refl
find-assign_other n k p ((j, pid) ∷ m) d h = elim (Bool-cases (str_eq j k)) [
  | inl same ↦ absurd (ground (arith, same, h))
  | inr other ↦ elim (Bool-cases (str_eq j n)) [
    | inl gone ↦ rw (gone, other, find) (rw other at h)
    | inr stays ↦ rw (stays, other, find) (find-assign_other n k p m d (rw other at h))
  ]
]

pub assign-Once : (n : Str) (p : ℤ) (m : Spawned) → Once m → Once (assign n p m)
unfolding assign find
assign-Once n p [] h = (refl, tt)
assign-Once n p ((k, pid) ∷ m) (fresh, h) = elim (Bool-cases (str_eq k n)) [
  | inl same ↦ rw same (fresh, h)
  | inr other ↦
      rw other (find-assign_other n k p m (rw (str_eq_comm n k) other) fresh, assign-Once n p m h)
]

pub Has-erase :
    (n : Str) (p q : ℤ) (m : Spawned) → find n m ≡ some p → q ≢ p → Has q m → Has q (erase n m)
unfolding find erase
Has-erase n p q [] e d h = h
Has-erase n p q ((k, pid) ∷ m) e d h = elim (Bool-cases (str_eq k n)) [
  | inl same ↦ elim h [
    | inl here ↦ absurd (d (here ∙ some-injective _ _ (rw same at e)))
    | inr there ↦ rw same there
  ]
  | inr other ↦ elim h [
    | inl here ↦ rw other (inl here)
    | inr there ↦ rw other (inr (Has-erase n p q m (rw other at e) d there))
  ]
]

pub Has-assign :
    (n : Str) (p q : ℤ) (m : Spawned) → find n m ≡ none → Has q m → Has q (assign n p m)
unfolding find assign
Has-assign n p q [] e h = absurd h
Has-assign n p q ((k, pid) ∷ m) e h = elim (Bool-cases (str_eq k n)) [
  | inl same ↦ absurd (ground (arith, same, e))
  | inr other ↦ elim h [
    | inl here ↦ rw other (inl here)
    | inr there ↦ rw other (inr (Has-assign n p q m (rw other at e) there))
  ]
]

pub Has-assign_new : (n : Str) (p : ℤ) (m : Spawned) → Has p (assign n p m)
unfolding assign
Has-assign_new n p [] = inl refl
Has-assign_new n p ((k, pid) ∷ m) = elim (Bool-cases (str_eq k n)) [
  | inl same ↦ rw same (inl refl)
  | inr other ↦ rw other (inr (Has-assign_new n p m))
]

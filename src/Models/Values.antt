-- ===== src/Models/Values.antt =====
-- The JSON values of a stored snapshot, and Python's slices of texts.

use domains_manager.Base.{ℕ, zero, suc, String, Bool, true, false, ◌&&◌, List, [], ◌∷◌, str_eq, eqb}
use domains_manager.Base.Dict.{Dict}

-- s[:n]
unfoldable pub prefix : ℕ → String → String
prefix zero s = String.[]
prefix (suc n) String.[] = String.[]
prefix (suc n) (String.◌∷◌ c s) = String.◌∷◌ c (prefix n s)

-- `object` holds the canonical text of a nested object, such as the registrar's.
pub data Json : Type 0 where
  null : Json
  flag : Bool → Json
  number : ℕ → Json
  text : String → Json
  texts : List String → Json
  object : String → Json

abbrev pub Snapshot : Type 0
Snapshot = Dict String Json

texts_beq : List String → List String → Bool
texts_beq [] [] = true
texts_beq (x ∷ xs) (y ∷ ys) = str_eq x y && texts_beq xs ys
texts_beq _ _ = false

flag_beq : Bool → Bool → Bool
flag_beq true true = true
flag_beq false false = true
flag_beq _ _ = false

-- A Boolean is one of Python's integers.
flag_number : Bool → ℕ
flag_number true = 1
flag_number false = 0

-- v == w
unfoldable pub json_beq : Json → Json → Bool
unfolding texts_beq flag_beq flag_number
json_beq null null = true
json_beq (flag a) (flag b) = flag_beq a b
json_beq (flag a) (number b) = eqb (flag_number a) b
json_beq (number a) (flag b) = eqb a (flag_number b)
json_beq (number a) (number b) = eqb a b
json_beq (text a) (text b) = str_eq a b
json_beq (texts a) (texts b) = texts_beq a b
json_beq (object a) (object b) = str_eq a b
json_beq _ _ = false

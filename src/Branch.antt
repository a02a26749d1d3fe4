-- ===== src/Branch.antt =====
-- src/EBranch.cpp: the names of the branches of a choice.
use worker_informer.Base.{ℕ, ◌<◌, ◌++◌, ◌≡◌, refl, arith, Bytes, codes, digits_of, print}

-- `enum class EBranchL`
pub data EBranchL : Type 0 where
  l0 l1 l2 l3 l4 l5 l6 l7 l8 l9 l10 l11 l12 l13 l14 l15 l16 l17 l18 l19 l20 l21 l22 l23 l24 l25 l26
        l27 l28 l29 l30 l31 l32 l33 l34 l35 l36 l37 lmax :
      EBranchL

-- `EBranchL2String`
unfoldable pub e_branch_l2_string : EBranchL → Bytes
e_branch_l2_string l0 = codes "NL0"
e_branch_l2_string l1 = codes "NL1"
e_branch_l2_string l2 = codes "NL2"
e_branch_l2_string l3 = codes "NL3"
e_branch_l2_string l4 = codes "NL4"
e_branch_l2_string l5 = codes "NL5"
e_branch_l2_string l6 = codes "NL6"
e_branch_l2_string l7 = codes "NL7"
e_branch_l2_string l8 = codes "NL8"
e_branch_l2_string l9 = codes "NL9"
e_branch_l2_string l10 = codes "NL10"
e_branch_l2_string l11 = codes "NL11"
e_branch_l2_string l12 = codes "NL12"
e_branch_l2_string l13 = codes "NL13"
e_branch_l2_string l14 = codes "NL14"
e_branch_l2_string l15 = codes "NL15"
e_branch_l2_string l16 = codes "NL16"
e_branch_l2_string l17 = codes "NL17"
e_branch_l2_string l18 = codes "NL18"
e_branch_l2_string l19 = codes "NL19"
e_branch_l2_string l20 = codes "NL20"
e_branch_l2_string l21 = codes "NL21"
e_branch_l2_string l22 = codes "NL22"
e_branch_l2_string l23 = codes "NL23"
e_branch_l2_string l24 = codes "NL24"
e_branch_l2_string l25 = codes "NL25"
e_branch_l2_string l26 = codes "NL26"
e_branch_l2_string l27 = codes "NL27"
e_branch_l2_string l28 = codes "NL28"
e_branch_l2_string l29 = codes "NL29"
e_branch_l2_string l30 = codes "NL30"
e_branch_l2_string l31 = codes "NL31"
e_branch_l2_string l32 = codes "NL32"
e_branch_l2_string l33 = codes "NL33"
e_branch_l2_string l34 = codes "NL34"
e_branch_l2_string l35 = codes "NL35"
e_branch_l2_string l36 = codes "NL36"
e_branch_l2_string l37 = codes "NL37"
e_branch_l2_string lmax = codes "NOP"

-- The number of an enumerator.
abbrev pub value_of : EBranchL → ℕ
value_of l0 = 0
value_of l1 = 1
value_of l2 = 2
value_of l3 = 3
value_of l4 = 4
value_of l5 = 5
value_of l6 = 6
value_of l7 = 7
value_of l8 = 8
value_of l9 = 9
value_of l10 = 10
value_of l11 = 11
value_of l12 = 12
value_of l13 = 13
value_of l14 = 14
value_of l15 = 15
value_of l16 = 16
value_of l17 = 17
value_of l18 = 18
value_of l19 = 19
value_of l20 = 20
value_of l21 = 21
value_of l22 = 22
value_of l23 = 23
value_of l24 = 24
value_of l25 = 25
value_of l26 = 26
value_of l27 = 27
value_of l28 = 28
value_of l29 = 29
value_of l30 = 30
value_of l31 = 31
value_of l32 = 32
value_of l33 = 33
value_of l34 = 34
value_of l35 = 35
value_of l36 = 36
value_of l37 = 37
value_of lmax = 38

-- A branch is named by its number.
e_branch_l2_string_lem :
    (b : EBranchL) → value_of b < 38 → e_branch_l2_string b ≡ codes "NL" ++ print (value_of b)
unfolding e_branch_l2_string digits_of
e_branch_l2_string_lem l0 h = refl
e_branch_l2_string_lem l1 h = refl
e_branch_l2_string_lem l2 h = refl
e_branch_l2_string_lem l3 h = refl
e_branch_l2_string_lem l4 h = refl
e_branch_l2_string_lem l5 h = refl
e_branch_l2_string_lem l6 h = refl
e_branch_l2_string_lem l7 h = refl
e_branch_l2_string_lem l8 h = refl
e_branch_l2_string_lem l9 h = refl
e_branch_l2_string_lem l10 h = refl
e_branch_l2_string_lem l11 h = refl
e_branch_l2_string_lem l12 h = refl
e_branch_l2_string_lem l13 h = refl
e_branch_l2_string_lem l14 h = refl
e_branch_l2_string_lem l15 h = refl
e_branch_l2_string_lem l16 h = refl
e_branch_l2_string_lem l17 h = refl
e_branch_l2_string_lem l18 h = refl
e_branch_l2_string_lem l19 h = refl
e_branch_l2_string_lem l20 h = refl
e_branch_l2_string_lem l21 h = refl
e_branch_l2_string_lem l22 h = refl
e_branch_l2_string_lem l23 h = refl
e_branch_l2_string_lem l24 h = refl
e_branch_l2_string_lem l25 h = refl
e_branch_l2_string_lem l26 h = refl
e_branch_l2_string_lem l27 h = refl
e_branch_l2_string_lem l28 h = refl
e_branch_l2_string_lem l29 h = refl
e_branch_l2_string_lem l30 h = refl
e_branch_l2_string_lem l31 h = refl
e_branch_l2_string_lem l32 h = refl
e_branch_l2_string_lem l33 h = refl
e_branch_l2_string_lem l34 h = refl
e_branch_l2_string_lem l35 h = refl
e_branch_l2_string_lem l36 h = refl
e_branch_l2_string_lem l37 h = refl
e_branch_l2_string_lem lmax h = absurd (omega arith)

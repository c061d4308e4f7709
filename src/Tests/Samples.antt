-- ===== src/Tests/Samples.antt =====
-- A relation of two levels for verif/btrees/relation_mem.c: a half-full leaf, and a full one that an
-- insertion splits.
use deep_spec_db.Base.{ℕ, refl, true, false, List, [], ◌∷◌, arith}
use deep_spec_db.Relation.{Node, Ancestors, Relation}
use deep_spec_db.Relation.Contents.{contents, to_list, flat}
use deep_spec_db.Relation.Refines.{IsRelation, At, key_limit}
use deep_spec_db.Relation.Order.{Ascends}
use deep_spec_db.Relation.Search.{child}

abbrev pub left_records : List (ℕ × ℕ)
left_records = (10, 1) ∷ (20, 2) ∷ (30, 3) ∷ (40, 4) ∷ (50, 5) ∷ (60, 6) ∷ (70, 7) ∷ (80, 8) ∷ []

abbrev pub right_records : List (ℕ × ℕ)
right_records =
    (90, 9)
    ∷ (100, 10)
    ∷ (110, 11)
    ∷ (120, 12)
    ∷ (130, 13)
    ∷ (140, 14)
    ∷ (150, 15)
    ∷ (160, 16)
    ∷ (170, 17)
    ∷ (180, 18)
    ∷ (190, 19)
    ∷ (200, 20)
    ∷ (210, 21)
    ∷ (220, 22)
    ∷ (230, 23)
    ∷ []

abbrev pub left_leaf : Node ℕ 0
left_leaf = record { first = true; last = false; ptr0 = tt; entries = left_records }

abbrev pub right_leaf : Node ℕ 0
right_leaf = record { first = false; last = true; ptr0 = tt; entries = right_records }

abbrev pub two_leaves : Relation ℕ
two_leaves = record {
  depth = 1;
  root = record { first = true; last = true; ptr0 = left_leaf; entries = (90, right_leaf) ∷ [] };
  num_records = 23;
}

-- Before the record of key 30, and past the end of the first leaf.
abbrev pub at_30 : Ancestors 1
at_30 = (0, 2)

abbrev pub at_seam : Ancestors 1
at_seam = (0, 8)

left_Ascends : Ascends 0 90 left_records
left_Ascends = (
  omega arith,
  (
    omega arith,
    (
      omega arith,
      (omega arith, (omega arith, (omega arith, (omega arith, (omega arith, omega arith))))),
    ),
  ),
)

right_Ascends : Ascends 90 key_limit right_records
right_Ascends = (
  omega arith,
  (
    omega arith,
    (
      omega arith,
      (
        omega arith,
        (
          omega arith,
          (
            omega arith,
            (
              omega arith,
              (
                omega arith,
                (
                  omega arith,
                  (
                    omega arith,
                    (
                      omega arith,
                      (omega arith, (omega arith, (omega arith, (omega arith, omega arith)))),
                    ),
                  ),
                ),
              ),
            ),
          ),
        ),
      ),
    ),
  ),
)

pub two_leaves-IsRelation : IsRelation two_leaves
unfolding contents to_list flat
two_leaves-IsRelation = record {
  ordered = (omega arith, ((left_Ascends, refl, refl), omega arith, (right_Ascends, refl, refl)));
  sized = (omega arith, omega arith, (omega arith, omega arith), ((omega arith, omega arith), tt));
  counted = refl;
}

pub at_30-At : At two_leaves at_30 2
unfolding child to_list flat
at_30-At = (left_leaf, refl, 2, (omega arith, refl, tt), refl)

pub at_seam-At : At two_leaves at_seam 8
unfolding child to_list flat
at_seam-At = (left_leaf, refl, 8, (omega arith, refl, tt), refl)

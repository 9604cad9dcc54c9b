-- ===== src/Tests/Clocks.antt =====
-- The theorems on clocks at two concurrent vectors.
use experimental_crdt.Base.{max, ◌≡◌, refl, arith, nat_eq, string_eq}
use experimental_crdt.Map.{get}
use experimental_crdt.Clock.{effective_counter, merge}
use experimental_crdt.Clock.Effective.{IsValid}
use experimental_crdt.Clock.Merge.{effective_counter-merge, merge-IsValid}
use experimental_crdt.Tests.Data.{clock_a, clock_b}

pub clock_a-IsValid : IsValid clock_a
unfolding get
clock_a-IsValid = record { is_map = (refl, (refl, tt)); outside = omega arith }

pub clock_b-IsValid : IsValid clock_b
unfolding get
clock_b-IsValid = record { is_map = (refl, (refl, tt)); outside = omega arith }

effective_counter-merge_example :
    effective_counter (merge clock_a clock_b) "b"
    ≡ max (effective_counter clock_a "b") (effective_counter clock_b "b")
effective_counter-merge_example = effective_counter-merge clock_a clock_b "b" clock_b-IsValid.is_map

merge-IsValid_example : IsValid (merge clock_a clock_b)
merge-IsValid_example = merge-IsValid clock_a clock_b clock_a-IsValid

-- ===== src/Storage/Ends.antt =====
-- That a listing of an object store ends: how an implementation of the AWS client shows it.
use mathlib.Core.WellFounded.{Acc}
use experimental_crdt.Base.{ℕ, zero, suc, ◌+◌, ◌<◌, String, Option, arith}
use experimental_crdt.Storage.{SdkResult, Page, Follows}

module _ {S : Type 0} (list : Option String → S → SdkResult Page × S) (left : Option String → S → ℕ)
    (fewer : (further at : Option String × S)
      → Follows list further at
      → left further.0 further.1 < left at.0 at.1) where
  abbrev ends_below : (n : ℕ) (at : Option String × S) → left at.0 at.1 < n → Acc (Follows list) at
  ends_below zero at h = absurd (omega arith)
  ends_below (suc n) at h =
      Acc.intro at (λ further f. ends_below n further (omega (arith, fewer further at f)))

  -- Where a count of what is left behind a token goes down from each page to the page that it names,
  -- no chain of pages goes on for ever.
  abbrev pub ends_of_fewer : (at : Option String × S) → Acc (Follows list) at
  ends_of_fewer at = ends_below (left at.0 at.1 + 1) at (omega arith)

-- ===== src/Text/Order.antt =====
-- The order of texts, sorting, and dropping neighbours that are equal.
use Prim.Native.String.{[], ◌∷◌}
use text.Mathlib.TextEquality.{Char-path}
use experimental_crdt.Base.{String, ◌==◌, string_eq, true, ◌||◌, List, ◌≡◌, refl, arith}
use experimental_crdt.Map.Sets.{contains}
use experimental_crdt.Text.{text_leb, insert_sorted, sort, put_new, dedup}

pub text_leb_refl : (s : String) → text_leb s s ≡ true
unfolding text_leb
text_leb_refl [] = refl
text_leb_refl (c ∷ s) = ground (arith, text_leb_refl s)

pub text_leb_total : (s t : String) → (text_leb s t || text_leb t s) ≡ true
unfolding text_leb
text_leb_total [] t = refl
text_leb_total (c ∷ s) [] = refl
text_leb_total (c ∷ s) (d ∷ t) = ground (arith, text_leb_total s t)

pub text_leb_antisym : (s t : String) → text_leb s t ≡ true → text_leb t s ≡ true → s ≡ t
unfolding text_leb
text_leb_antisym [] [] h g = refl
text_leb_antisym [] (d ∷ t) h g = absurd (ground arith)
text_leb_antisym (c ∷ s) [] h g = absurd (ground arith)
text_leb_antisym (c ∷ s) (d ∷ t) h g = ground (arith, text_leb_antisym s t, Char-path c d)

contains-insert_sorted :
    (s t : String) (ts : List String)
    → contains (insert_sorted s ts) t ≡ ((s == t) || contains ts t)
unfolding insert_sorted contains
contains-insert_sorted s t List.[] = ground arith
contains-insert_sorted s t (List.◌∷◌ u ts) = ground (arith, contains-insert_sorted s t ts)

-- Sorting keeps what is in a list.
pub contains-sort : (ts : List String) (t : String) → contains (sort ts) t ≡ contains ts t
unfolding sort contains
contains-sort List.[] t = refl
contains-sort (List.◌∷◌ s ts) t =
    ground (arith, contains-sort ts t, contains-insert_sorted s t (sort ts))

contains-put_new :
    (s t : String) (ts : List String) → contains (put_new s ts) t ≡ ((s == t) || contains ts t)
unfolding contains
contains-put_new s t List.[] = ground arith
contains-put_new s t (List.◌∷◌ u ts) =
    ground (arith, string_eq.beq_iff s u, string_eq.beq_iff u t, string_eq.beq_iff s t)

pub contains-dedup : (ts : List String) (t : String) → contains (dedup ts) t ≡ contains ts t
unfolding dedup contains
contains-dedup List.[] t = refl
contains-dedup (List.◌∷◌ s ts) t =
    ground (arith, contains-dedup ts t, contains-put_new s t (dedup ts))

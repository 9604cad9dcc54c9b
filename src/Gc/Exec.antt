-- ===== src/Gc/Exec.antt =====
-- A method of the coordinator: it reads and writes the replica's state and the shared storage, and
-- returns, fails with `?`, panics, or is still polling when its fuel is used up. What was written
-- before a failure stays written.
pub mod Keeps
use experimental_crdt.Base.{
  ℕ, zero, suc, ◌+◌, ◌-◌, ◌*◌, ◌/◌, ◌%◌, ◌^◌, ◌≤◌, ◌<◌, max, min, String, ◌≡◌, refl, sym, ap, ◌∙◌,
  ◌≢◌, ◌↔◌, ◌⊎◌, inl, inr, Bool, true, false, not, ◌&&◌, ◌||◌, Option, none, some, List, [], ◌∷◌,
  ◌++◌, map, arith, ltb, leb, nat_eqb, nat_eqb_iff, if◌then◌else◌, Bool-cases, Option-cases,
  Bool-ext, Eq, ◌==◌, nat_eq, string_eq, beq_refl, length, any, all, retain, Result, ok, err, ok_or,
  is_ok, collect, Result-cases,
}
use experimental_crdt.Clock.{DotVersionVector}
use experimental_crdt.Gc.{GcCoordinator}

pub record World (S C : Type 0) : Type 0 where
  pub gc : GcCoordinator
  pub crdt : C
  pub dvv : DotVersionVector
  pub storage : S

pub data Outcome (A : Type 0) : Type 0 where
  returns : A → Outcome A
  fails : String → Outcome A
  panics : Outcome A
  polls : Outcome A

abbrev pub outcome : {A : Type 0} → Result A → Outcome A
outcome (ok a) = returns a
outcome (err e) = fails e

abbrev pub Exec : Type 0 → Type 0 → Type 0 → Type 0
Exec S C A = World S C → Outcome A × World S C

module _ {S C : Type 0} where
  abbrev pub pure : {A : Type 0} → A → Exec S C A
  pure a w = (returns a, w)

  abbrev pub resume : {A B : Type 0} → Outcome A → (A → Exec S C B) → Exec S C B
  resume (returns a) f w = f a w
  resume (fails e) f w = (fails e, w)
  resume panics f w = (panics, w)
  resume polls f w = (polls, w)

  infixl 5 ◌>>=◌ ◌>>◌
  abbrev pub ◌>>=◌ : {A B : Type 0} → Exec S C A → (A → Exec S C B) → Exec S C B
  ◌>>=◌ m f w = resume (m w).0 f (m w).1

  abbrev pub ◌>>◌ : {B : Type 0} → Exec S C (Unit {0}) → Exec S C B → Exec S C B
  m >> k = m >>= λ _. k

  -- a storage call with `?`
  abbrev pub call : {A : Type 0} → (S → Result A × S) → Exec S C A
  call f w = (outcome (f w.storage).0, record w { storage = (f w.storage).1 })

  -- a storage call whose failure is only logged
  abbrev pub attempt : {A : Type 0} → (S → Result A × S) → Exec S C (Unit {0})
  attempt f w = (returns tt, record w { storage = (f w.storage).1 })

  abbrev pub get_world : Exec S C (World S C)
  get_world w = (returns w, w)

  abbrev pub settle : World S C → Option GcCoordinator → Outcome (Unit {0}) × World S C
  settle w none = (panics, w)
  settle w (some gc) = (returns tt, record w { gc = gc })

  -- a write to the coordinator that may panic
  abbrev pub write_gc : (GcCoordinator → Option GcCoordinator) → Exec S C (Unit {0})
  write_gc f w = settle w (f w.gc)

  abbrev pub set_crdt : (C → C) → Exec S C (Unit {0})
  set_crdt f w = (returns tt, record w { crdt = f w.crdt })

  abbrev pub set_dvv : (DotVersionVector → DotVersionVector) → Exec S C (Unit {0})
  set_dvv f w = (returns tt, record w { dvv = f w.dvv })

  abbrev pub set_epoch : ℕ → Exec S C (Unit {0})
  set_epoch n w = (returns tt, record w { gc = record w.gc { epoch = n } })

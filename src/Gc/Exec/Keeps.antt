-- ===== src/Gc/Exec/Keeps.antt =====
-- An invariant of the replica that a method of the coordinator keeps, without a panic; a rule for
-- each way of building a method, so that a method's proof follows its text.
use experimental_crdt.Base.{
  ℕ, ◌≡◌, Bool, true, false, Option, some, if◌then◌else◌, nat_eq, string_eq, Result, ok, err,
}
use experimental_crdt.Clock.{DotVersionVector}
use experimental_crdt.Clock.Effective.{IsValid}
use experimental_crdt.Gc.{GcCoordinator}
use experimental_crdt.Gc.Matrix.{IsReady}
use experimental_crdt.Gc.Exec.{
  World, Outcome, returns, fails, panics, polls, outcome, Exec, pure, resume, ◌>>=◌, call, attempt,
  get_world, settle, write_gc, set_crdt, set_dvv, set_epoch,
}

abbrev pub NoPanic : {A : Type 0} → Outcome A → Type 0
NoPanic (returns a) = Unit
NoPanic (fails e) = Unit
NoPanic panics = ⊥
NoPanic polls = Unit

outcome-NoPanic : {A : Type 0} (r : Result A) → NoPanic (outcome r)
outcome-NoPanic (ok a) = tt
outcome-NoPanic (err e) = tt

module _ {S C : Type 0} where
  -- the coordinator has its matrix, and the clock is valid
  abbrev pub IsSound : World S C → Type 0
  IsSound w = IsReady w.gc × IsValid w.dvv

  -- The method does not panic in a sound world, and leaves it sound.
  pub record Keeps {A : Type 0} (m : Exec S C A) : Type 0 where
    pub at : (w : World S C) → IsSound w → NoPanic (m w).0 × IsSound (m w).1

  resume-Keeps :
      {A B : Type 0} (o : Outcome A) (f : A → Exec S C B) (w : World S C)
      → NoPanic o
      → IsSound w
      → ((a : A) → Keeps (f a))
      → NoPanic (resume o f w).0 × IsSound (resume o f w).1
  resume-Keeps (returns a) f w n s k = (k a).at w s
  resume-Keeps (fails e) f w n s k = (tt, s)
  resume-Keeps panics f w n s k = elim n [ ]
  resume-Keeps polls f w n s k = (tt, s)

  pub bind-Keeps :
      {A B : Type 0} {m : Exec S C A} {f : A → Exec S C B}
      → Keeps m
      → ((a : A) → Keeps (f a))
      → Keeps (m >>= f)
  bind-Keeps {m} {f} h k = record {
    at = λ w s. let (n, s') = h.at w s in resume-Keeps (m w).0 f (m w).1 n s' k;
  }

  pub pure-Keeps : {A : Type 0} (a : A) → Keeps (pure {A = A} a)
  pure-Keeps a = record { at = λ w s. (tt, s) }

  pub lift-Keeps : {A : Type 0} (r : Result A) → Keeps {A = A} (λ w. (outcome r, w))
  lift-Keeps r = record { at = λ w s. (outcome-NoPanic r, s) }

  pub call-Keeps : {A : Type 0} (f : S → Result A × S) → Keeps (call f)
  call-Keeps f = record { at = λ w s. (outcome-NoPanic (f w.storage).0, s) }

  pub attempt-Keeps : {A : Type 0} (f : S → Result A × S) → Keeps (attempt f)
  attempt-Keeps f = record { at = λ w s. (tt, s) }

  pub get_world-Keeps : Keeps get_world
  get_world-Keeps = record { at = λ w s. (tt, s) }

  pub set_crdt-Keeps : (f : C → C) → Keeps (set_crdt f)
  set_crdt-Keeps f = record { at = λ w s. (tt, s) }

  pub set_epoch-Keeps : (n : ℕ) → Keeps (set_epoch n)
  set_epoch-Keeps n = record { at = λ w s. (tt, s) }

  pub set_dvv-Keeps :
      (f : DotVersionVector → DotVersionVector)
      → ((d : DotVersionVector) → IsValid d → IsValid (f d))
      → Keeps (set_dvv f)
  set_dvv-Keeps f k = record { at = λ w s. (tt, (s.0, k w.dvv s.1)) }

  pub write_gc-Keeps :
      (f : GcCoordinator → Option GcCoordinator)
      → ((gc : GcCoordinator)
          → IsReady gc
          → (gc' : GcCoordinator) × (f gc ≡ some gc') × IsReady gc')
      → Keeps (write_gc f)
  write_gc-Keeps f k = record {
    at = λ w s. let (gc', e, ready) = k w.gc s.0 in rw (e, settle) (tt, (ready, s.1));
  }

  pub if-Keeps :
      {A : Type 0} (b : Bool) {m n : Exec S C A} → Keeps m → Keeps n → Keeps (if b then m else n)
  if-Keeps true h k = h
  if-Keeps false h k = k

-- ===== src/TestMode/Ending.antt =====
-- host/src/test_mode.rs: how the loops of the download and the bandwidth tests end.
use lamella.Base.{
  ◌++◌, sym, subst, append-nil, List, [], ℕ, ◌-◌, Bool, true, false, ◌&&◌, if◌then◌else◌, Option,
  none, some, ◌≡◌, refl,
}

-- Cancelled, with the time of the download, or at an `unwrap` on `None`.
pub data Ending : Type 0 where
  running : Ending
  cancelled : Ending
  complete : (elapsed : ℕ) → Ending
  panicked : Ending

-- `start_time.unwrap().elapsed()`, and the end of the loop.
abbrev pub complete_since : Option ℕ → ℕ → Ending
complete_since none now = panicked
complete_since (some start) now = complete (now - start)

-- `start_time.unwrap().elapsed()`, and the report.
abbrev pub report_since : {S : Type 0} → Option ℕ → S → S → S × Ending
report_since none s reported = (s, panicked)
report_since (some start) s reported = (reported, running)

-- The end of a pass: is it over, is a report due?
abbrev pub conclude_test : {S : Type 0} → Bool → Bool → Bool → Option ℕ → ℕ → S → S → S × Ending
conclude_test active over due start now s reported =
    if active && over
    then (s, complete_since start now)
    else if active && due
    then report_since start s reported
    else (s, running)

-- `rest` is the run from the next pass on.
abbrev pub unless_over : {S : Type 0} → S × Ending → S × Ending → S × Ending
unless_over rest (s, running) = rest
unless_over rest (s, cancelled) = (s, cancelled)
unless_over rest (s, complete elapsed) = (s, complete elapsed)
unless_over rest (s, panicked) = (s, panicked)

-- What the passes after this one bring.
abbrev pub while_running : Ending → List ℕ → List ℕ
while_running running l = l
while_running cancelled l = []
while_running (complete elapsed) l = []
while_running panicked l = []

abbrev pub IsSome : Option ℕ → Type 0
IsSome none = ⊥
IsSome (some n) = Unit

-- No panic, and an end only where `P` holds.
abbrev pub Fine : {S : Type 0} → (S → Type 0) → S × Ending → Type 0
Fine P (s, running) = Unit
Fine P (s, cancelled) = Unit
Fine P (s, complete elapsed) = P s
Fine P (s, panicked) = ⊥

module _ {S : Type 0} (Inv P : S → Type 0) where
  complete_since-Fine :
      (start : Option ℕ) (now : ℕ) (s : S)
      → IsSome start
      → P s
      → Fine P (s, complete_since start now)
  complete_since-Fine none now s h p = absurd h
  complete_since-Fine (some t) now s h p = p

  report_since-Fine :
      (start : Option ℕ) (s reported : S)
      → IsSome start
      → Inv reported
      → Inv (report_since start s reported).0 × Fine P (report_since start s reported)
  report_since-Fine none s reported h i = absurd h
  report_since-Fine (some t) s reported h i = (i, tt)

  pub conclude_test-Fine :
      (active over due : Bool) (start : Option ℕ) (now : ℕ) (s reported : S)
      → (active ≡ true → IsSome start × P s)
      → Inv s
      → Inv reported
      → let r = conclude_test active over due start now s reported in Inv r.0 × Fine P r
  conclude_test-Fine false over due start now s reported h i j = (i, tt)
  conclude_test-Fine true true due start now s reported h i j =
      (i, complete_since-Fine start now s (h refl).0 (h refl).1)
  conclude_test-Fine true false true start now s reported h i j =
      report_since-Fine start s reported (h refl).0 j
  conclude_test-Fine true false false start now s reported h i j = (i, tt)

  pub unless_over-Fine :
      (rest after : S × Ending)
      → Inv rest.0 × Fine P rest
      → Inv after.0 × Fine P after
      → Inv (unless_over rest after).0 × Fine P (unless_over rest after)
  unless_over-Fine rest (s, running) r a = r
  unless_over-Fine rest (s, cancelled) r a = a
  unless_over-Fine rest (s, complete t) r a = a
  unless_over-Fine rest (s, panicked) r a = a

-- An invariant that also follows what the passes bring.
module _ {S : Type 0} (Inv : List ℕ → S → Type 0) (P : S → Type 0) where
  pub unless_over-Inv :
      (rest after : S × Ending) (l more : List ℕ)
      → Inv l after.0 × Fine P after
      → Inv (l ++ more) rest.0 × Fine P rest
      → Inv (l ++ while_running after.1 more) (unless_over rest after).0
        × Fine P (unless_over rest after)
  unless_over-Inv rest (s, running) l more a r = r
  unless_over-Inv rest (s, cancelled) l more a r =
      (subst (λ l. Inv l s) (sym (append-nil l)) a.0, a.1)
  unless_over-Inv rest (s, complete t) l more a r =
      (subst (λ l. Inv l s) (sym (append-nil l)) a.0, a.1)
  unless_over-Inv rest (s, panicked) l more a r =
      (subst (λ l. Inv l s) (sym (append-nil l)) a.0, a.1)

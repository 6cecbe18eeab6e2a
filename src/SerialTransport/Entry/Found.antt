-- ===== src/SerialTransport/Entry/Found.antt =====
-- host/src/serial_transport.rs: which device `find_device_by_id` finds.
use lamella.Base.{
  both_true, if◌then◌else◌, ℕ, ◌==◌, Bool, true, false, ◌||◌, Option, none, some, List, [], ◌∷◌,
  ◌++◌, ◌≡◌, ◌↔◌, refl, sym, ap, ◌∙◌, Result, ok, err, arith, Bool-cases, inl, inr,
}
use lamella.SerialTransport.Entry.{
  starts_with, contains, Entry, first_match, Directory, match_in, find_device_by_id,
}

-- `pattern` stands somewhere in `s`.
abbrev pub Contains : List ℕ → List ℕ → Type 0
Contains pattern s = (a : List ℕ) × (b : List ℕ) × (s ≡ a ++ (pattern ++ b))

same_byte : (x y : ℕ) → (x == y) ≡ true → y ≡ x
same_byte x y h = ground arith

starts_with-tail :
    (x y : ℕ) (pattern s b : List ℕ) → y ∷ s ≡ x ∷ (pattern ++ b) → (x ≡ y) × (s ≡ pattern ++ b)
starts_with-tail x y pattern s b h = (cc, cc)

starts_with_iff :
    (pattern s : List ℕ) → (starts_with pattern s ≡ true) ↔ ((b : List ℕ) × (s ≡ pattern ++ b))
starts_with_iff [] s = ((λ h. (s, refl)), (λ h. refl))
starts_with_iff (x ∷ pattern) [] = ((λ h. cc), (λ h. cc h.1))
starts_with_iff (x ∷ pattern) (y ∷ s) =
    let rest = starts_with_iff pattern s in
    (
      (λ h.
          let both = both_true (x == y) (starts_with pattern s) h in
          let (b, e) = rest.0 both.1 in
          (b, ap (λ z. z ∷ s) (same_byte x y both.0) ∙ ap (λ l. x ∷ l) e)),
      (λ h.
          let (e, t) = starts_with-tail x y pattern s h.0 h.1 in
          ground (arith, e, rest.1 (h.0, t))),
    )

contains_iff : (pattern s : List ℕ) → (contains pattern s ≡ true) ↔ Contains pattern s
unfolding contains
contains_iff pattern [] =
    let start = starts_with_iff pattern [] in
    ((λ h. ([], (start.0 h).0, (start.0 h).1)), (λ h. at_end h.0 h.1 h.2))
  where
    at_end : (a b : List ℕ) → [] ≡ a ++ (pattern ++ b) → starts_with pattern [] ≡ true
    at_end [] b e = (starts_with_iff pattern []).1 (b, e)
    at_end (x ∷ a) b e = cc
contains_iff pattern (y ∷ s) =
    let start = starts_with_iff pattern (y ∷ s) in
    let later = contains_iff pattern s in
    (
      (λ h. elim (Bool-cases (starts_with pattern (y ∷ s))) [
        | inl e ↦ ([], (start.0 e).0, (start.0 e).1)
        | inr e ↦
            let (a, b, t) = later.0 (ap (λ x. x || contains pattern s) (sym e) ∙ h) in
            (y ∷ a, b, ap (λ l. y ∷ l) t)
      ]),
      (λ h. later_or_here later.1 h.0 h.1 h.2),
    )
  where
    later_or_here :
        (Contains pattern s → contains pattern s ≡ true)
        → (a b : List ℕ) → y ∷ s ≡ a ++ (pattern ++ b)
        → (starts_with pattern (y ∷ s) || contains pattern s) ≡ true
    later_or_here later [] b e =
        ap (λ x. x || contains pattern s) ((starts_with_iff pattern (y ∷ s)).1 (b, e))
    later_or_here later (x ∷ a) b e = let found = later (a, b, cc) in ground (arith, found)

-- No entry that can be read has a name with the pattern.
abbrev pub NoMatch : List ℕ → List (Option Entry) → Type 0
NoMatch pattern [] = Unit
NoMatch pattern (none ∷ rest) = NoMatch pattern rest
NoMatch pattern (some entry ∷ rest) = (¬ Contains pattern entry.name) × NoMatch pattern rest

-- The path is that of the first entry whose name has the pattern; there is none where no name has it.
abbrev pub IsFirst : List ℕ → List (Option Entry) → Option (List ℕ) → Type 0
IsFirst pattern entries none = NoMatch pattern entries
IsFirst pattern entries (some path) =
    (before : List (Option Entry)) × (entry : Entry) × (rest : List (Option Entry)) × (entries
      ≡ before ++ some entry ∷ rest)
    × NoMatch pattern before
    × Contains pattern entry.name
    × (path ≡ entry.path)

one_more :
    (pattern : List ℕ) (o : Option Entry) (entries : List (Option Entry)) (r : Option (List ℕ))
    → NoMatch pattern (o ∷ [])
    → IsFirst pattern entries r
    → IsFirst pattern (o ∷ entries) r
one_more pattern none entries none n h = h
one_more pattern (some e) entries none n h = (n.0, h)
one_more pattern none entries (some path) n (before, entry, rest, e, lacks, found, p) =
    (none ∷ before, entry, rest, ap (λ l. none ∷ l) e, lacks, found, p)
one_more pattern (some x) entries (some path) n (before, entry, rest, e, lacks, found, p) =
    (some x ∷ before, entry, rest, ap (λ l. some x ∷ l) e, (n.0, lacks), found, p)

first_match-IsFirst :
    (pattern : List ℕ) (entries : List (Option Entry))
    → IsFirst pattern entries (first_match pattern entries)
unfolding first_match
first_match-IsFirst pattern [] = tt
first_match-IsFirst pattern (none ∷ rest) =
    one_more pattern none rest (first_match pattern rest) tt (first_match-IsFirst pattern rest)
first_match-IsFirst pattern (some entry ∷ rest) = elim (Bool-cases (contains pattern entry.name)) [
  | inl e ↦ rw e ([], entry, rest, refl, tt, (contains_iff pattern entry.name).0 e, refl)
  | inr e ↦ rw e (
      one_more pattern (some entry) rest (first_match pattern rest)
        ((λ h. cc ((contains_iff pattern entry.name).1 h)), tt) (first_match-IsFirst pattern rest))
]

abbrev pub readable : {E : Type 0} → Result (List (Option Entry)) E → List (Option Entry)
readable (ok entries) = entries
readable (err e) = []

-- The entries of the directory, if it is there and can be read.
abbrev pub listed : {E : Type 0} → Directory E → List (Option Entry)
listed by_id = if by_id.is_there then readable by_id.entries else []

search-IsFirst :
    {E : Type 0} (pattern : List ℕ) (is_there : Bool) (entries : Result (List (Option Entry)) E)
    → IsFirst pattern
        (if is_there then readable entries else [])
        (if is_there then match_in pattern entries else none)
search-IsFirst pattern true (ok entries) = first_match-IsFirst pattern entries
search-IsFirst pattern true (err e) = tt
search-IsFirst pattern false entries = tt

-- The search finds the path of the first entry of the directory that can be read and whose name has
-- the pattern in it, and nothing exactly if there is none, or no directory that can be read.
pub find_device_by_id-IsFirst :
    {E : Type 0} (pattern : List ℕ) (by_id : Directory E)
    → IsFirst pattern (listed by_id) (find_device_by_id pattern by_id)
unfolding find_device_by_id
find_device_by_id-IsFirst pattern by_id = search-IsFirst pattern by_id.is_there by_id.entries

-- ===== src/TestMode/Download/Blank.antt =====
-- host/src/test_mode.rs: the search for the blank line that ends the headers of an HTTP response, and
-- what follows it in a stream of bytes.
use lamella.Base.{
  zero, suc, ◌≤◌, sym, ◌∙◌, ap, ℕ, ◌+◌, Bool, true, false, ◌&&◌, ◌==◌, if◌then◌else◌, Option, none,
  some, List, [], ◌∷◌, ◌++◌, ◌≡◌, refl, length, arith, Bool-cases, inl, inr,
}

-- The window at the front is `b"\r\n\r\n"`.
abbrev pub at_blank : List ℕ → Bool
at_blank [] = false
at_blank (a ∷ []) = false
at_blank (a ∷ b ∷ []) = false
at_blank (a ∷ b ∷ c ∷ []) = false
at_blank (a ∷ b ∷ c ∷ d ∷ rest) = (a == 13 && b == 10) && (c == 13 && d == 10)

abbrev pub one_later : Option ℕ → Option ℕ
one_later none = none
one_later (some pos) = some (pos + 1)

-- `windows(4).position(|w| w == b"\r\n\r\n")`.
unfoldable pub header_end : List ℕ → Option ℕ
header_end [] = none
header_end (b ∷ rest) =
    let later = header_end rest in if at_blank (b ∷ rest) then some 0 else one_later later

abbrev pub drop : ℕ → List ℕ → List ℕ
drop zero l = l
drop (suc n) [] = []
drop (suc n) (b ∷ l) = drop n l

-- What follows the first blank line of a stream, if it has one.
unfoldable pub after_blank : List ℕ → Option (List ℕ)
after_blank [] = none
after_blank (b ∷ rest) =
    let later = after_blank rest in if at_blank (b ∷ rest) then some (drop 3 rest) else later

-- `header_end` finds the body's place.
abbrev pub Locates : Option ℕ → Option (List ℕ) → List ℕ → Type 0
Locates none none l = Unit
Locates none (some body) l = ⊥
Locates (some pos) none l = ⊥
Locates (some pos) (some body) l = length l ≡ pos + 4 + length body

one_later-Locates :
    (e : Option ℕ) (o : Option (List ℕ)) (b : ℕ) (l : List ℕ)
    → Locates e o l
    → Locates (one_later e) o (b ∷ l)
one_later-Locates none none b l h = tt
one_later-Locates none (some body) b l h = absurd h
one_later-Locates (some pos) none b l h = absurd h
one_later-Locates (some pos) (some body) b l h = omega (arith, h)

blank_length :
    (b : ℕ) (l : List ℕ) → at_blank (b ∷ l) ≡ true → length (b ∷ l) ≡ 4 + length (drop 3 l)
blank_length b [] h = cc
blank_length b (c ∷ []) h = cc
blank_length b (c ∷ d ∷ []) h = cc
blank_length b (c ∷ d ∷ e ∷ rest) h = omega arith

pub header_end-Locates : (l : List ℕ) → Locates (header_end l) (after_blank l) l
unfolding header_end after_blank
header_end-Locates [] = tt
header_end-Locates (b ∷ l) = elim (Bool-cases (at_blank (b ∷ l))) [
  | inl here ↦ rw here (blank_length b l here)
  | inr later ↦
      rw later (one_later-Locates (header_end l) (after_blank l) b l (header_end-Locates l))
]

after_blank_step :
    (b : ℕ) (l : List ℕ)
    → after_blank (b ∷ l) ≡ (if at_blank (b ∷ l) then some (drop 3 l) else after_blank l)
unfolding after_blank
after_blank_step b l = refl

-- No blank line fits into three bytes.
too_short : (l body : List ℕ) → length l ≤ 3 → after_blank l ≡ some body → ⊥
unfolding after_blank
too_short [] body le h = cc
too_short (a ∷ []) body le h = cc
too_short (a ∷ b ∷ []) body le h = cc
too_short (a ∷ b ∷ c ∷ []) body le h = cc
too_short (a ∷ b ∷ c ∷ d ∷ l) body le h = omega arith

-- A blank line that is found stays the first one when the stream goes on.
pub after_blank-append :
    (l m body : List ℕ) → after_blank l ≡ some body → after_blank (l ++ m) ≡ some (body ++ m)
after_blank-append [] m body h = absurd (too_short [] body (omega arith) h)
after_blank-append (a ∷ []) m body h = absurd (too_short (a ∷ []) body (omega arith) h)
after_blank-append (a ∷ b ∷ []) m body h = absurd (too_short (a ∷ b ∷ []) body (omega arith) h)
after_blank-append (a ∷ b ∷ c ∷ []) m body h =
    absurd (too_short (a ∷ b ∷ c ∷ []) body (omega arith) h)
after_blank-append (a ∷ b ∷ c ∷ d ∷ l) m body h = elim (Bool-cases (at_blank (a ∷ b ∷ c ∷ d ∷ l))) [
  | inl here ↦
      let whole = sym (after_blank_step a (b ∷ c ∷ d ∷ l)) ∙ h in
      let found : some l ≡ some body =
        ap (λ x. if x then some l else after_blank (b ∷ c ∷ d ∷ l)) (sym here) ∙ whole in
      after_blank_step a (b ∷ c ∷ d ∷ (l ++ m))
      ∙ ap (λ x. if x then some (l ++ m) else after_blank (b ∷ c ∷ d ∷ (l ++ m))) here
      ∙ cc
  | inr later ↦
      let whole = sym (after_blank_step a (b ∷ c ∷ d ∷ l)) ∙ h in
      let rest : after_blank (b ∷ c ∷ d ∷ l) ≡ some body =
        ap (λ x. if x then some l else after_blank (b ∷ c ∷ d ∷ l)) (sym later) ∙ whole in
      after_blank_step a (b ∷ c ∷ d ∷ (l ++ m))
      ∙ ap (λ x. if x then some (l ++ m) else after_blank (b ∷ c ∷ d ∷ (l ++ m))) later
      ∙ after_blank-append (b ∷ c ∷ d ∷ l) m body rest
]

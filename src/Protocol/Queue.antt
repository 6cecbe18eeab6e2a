-- ===== src/Protocol/Queue.antt =====
-- The requests on the link: first repeats of what the server has answered last, then copies of the
-- host's current request.
use lamella.Base.{
  Option, none, some, List, [], ◌∷◌, ◌++◌, ◌≡◌, ◌⊎◌, inl, inr, sym, All, subst, Bool-cases,
}
use lamella.Icd.{WifiTransaction, same_transaction, same_transaction_iff}
use lamella.Protocol.Defs.{Service, IsRepeat}

pub transaction-cases : (a b : WifiTransaction) → (a ≡ b) ⊎ ¬ (a ≡ b)
transaction-cases a b = elim (Bool-cases (same_transaction a b)) [
  | inl same ↦ inl ((same_transaction_iff a b).0 same)
  | inr differ ↦ inr (λ e. cc (differ, (same_transaction_iff a b).1 e))
]

module _ {Q R S X V : Type 0} (service : Service Q R S X V) where
  pub IsRepeat-cases : (c : Option R) (q : Q) → IsRepeat service c q ⊎ ¬ IsRepeat service c q
  IsRepeat-cases none q = inr (λ h. h)
  IsRepeat-cases (some r) q = transaction-cases (service.response_id r) (service.request_id q)

  pub IsRepeat-of :
      (c : Option R) (q : Q) (r : R)
      → c ≡ some r
      → service.response_id r ≡ service.request_id q
      → IsRepeat service c q
  IsRepeat-of c q r e h = subst (λ o. IsRepeat service o q) (sym e) h

  abbrev pub AllCurrent : Option Q → List Q → Type 0
  AllCurrent current l = All (λ p. current ≡ some p) l

  abbrev pub Ordered : Option R → Option Q → List Q → Type 0
  Ordered c current [] = Unit
  Ordered c current (q ∷ rest) =
      (IsRepeat service c q × Ordered c current rest) ⊎ AllCurrent current (q ∷ rest)

  AllCurrent-snoc :
      (current : Option Q) (l : List Q) (q : Q)
      → current ≡ some q
      → AllCurrent current l
      → AllCurrent current (l ++ q ∷ [])
  AllCurrent-snoc current [] q e h = (e, tt)
  AllCurrent-snoc current (p ∷ l) q e h = (h.0, AllCurrent-snoc current l q e h.1)

  AllCurrent-remove :
      (current : Option Q) (a b : List Q) (q : Q)
      → AllCurrent current (a ++ q ∷ b)
      → AllCurrent current (a ++ b)
  AllCurrent-remove current [] b q h = h.1
  AllCurrent-remove current (p ∷ a) b q h = (h.0, AllCurrent-remove current a b q h.1)

  pub Ordered-all :
      (c : Option R) (current : Option Q) (l : List Q) → AllCurrent current l → Ordered c current l
  Ordered-all c current [] h = tt
  Ordered-all c current (q ∷ l) h = inr h

  pub Ordered-snoc :
      (c : Option R) (current : Option Q) (l : List Q) (q : Q)
      → current ≡ some q
      → Ordered c current l
      → Ordered c current (l ++ q ∷ [])
  Ordered-snoc c current [] q e h = inr (e, tt)
  Ordered-snoc c current (p ∷ l) q e (inl h) = inl (h.0, Ordered-snoc c current l q e h.1)
  Ordered-snoc c current (p ∷ l) q e (inr h) = inr (AllCurrent-snoc current (p ∷ l) q e h)

  pub Ordered-remove :
      (c : Option R) (current : Option Q) (a b : List Q) (q : Q)
      → Ordered c current (a ++ q ∷ b)
      → Ordered c current (a ++ b)
  Ordered-remove c current [] b q (inl h) = h.1
  Ordered-remove c current [] b q (inr h) = Ordered-all c current b h.1
  Ordered-remove c current (p ∷ a) b q (inl h) = inl (h.0, Ordered-remove c current a b q h.1)
  Ordered-remove c current (p ∷ a) b q (inr h) = inr (AllCurrent-remove current (p ∷ a) b q h)

  -- A new transaction begins while only repeats are on the link.
  pub Ordered-begin : (c : Option R) (q : Q) (l : List Q) → Ordered c none l → Ordered c (some q) l
  Ordered-begin c q [] h = tt
  Ordered-begin c q (p ∷ l) (inl h) = inl (h.0, Ordered-begin c q l h.1)
  Ordered-begin c q (p ∷ l) (inr h) = absurd (cc (h.0))

  -- Once the current request is answered, all that is on the link repeats it or is older.
  pub Ordered-end :
      (c : Option R) (q : Q) (l : List Q)
      → IsRepeat service c q
      → Ordered c (some q) l
      → Ordered c none l
  Ordered-end c q [] r h = tt
  Ordered-end c q (p ∷ l) r (inl h) = inl (h.0, Ordered-end c q l r h.1)
  Ordered-end c q (p ∷ l) r (inr h) =
      let e : q ≡ p = cc (h.0) in
      inl (subst (IsRepeat service c) e r, Ordered-end c q l r (Ordered-all c (some q) l h.1))

  -- A request that is no repeat is the host's current one, and so is all behind it.
  pub Ordered-new :
      (c : Option R) (current : Option Q) (q : Q) (l : List Q)
      → ¬ IsRepeat service c q
      → Ordered c current (q ∷ l)
      → (current ≡ some q) × AllCurrent current l
  Ordered-new c current q l fresh (inl h) = absurd (fresh h.0)
  Ordered-new c current q l fresh (inr h) = (h.0, h.1)

  pub Ordered-tail :
      (c : Option R) (current : Option Q) (q : Q) (l : List Q)
      → Ordered c current (q ∷ l)
      → Ordered c current l
  Ordered-tail c current q l (inl h) = h.1
  Ordered-tail c current q l (inr h) = Ordered-all c current l h.1

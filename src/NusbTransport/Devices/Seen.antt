-- ===== src/NusbTransport/Devices/Seen.antt =====
-- host/src/nusb_transport.rs: which devices `reconcile_and_register_devices` keeps in `seen`.
use lamella.Base.{
  ℕ, Bool, true, false, List, [], ◌∷◌, Result, ok, err, ◌≡◌, ◌↔◌, ◌⊎◌, inl, inr, refl, sym, subst,
  arith, In, Bool-cases,
}
use lamella.NusbTransport.Devices.{
  UsbDevice, coarse_device_filter, contains, insert, retain, infos, current_device_infos,
  still_connected, register, reconcile_and_register_devices,
}

module _ {A : Type 0} (same : A → A → Bool)
    (same_iff : (x y : A) → (same x y ≡ true) ↔ (x ≡ y)) where
  contains_iff : (l : List A) (x : A) → (contains same l x ≡ true) ↔ In x l
  unfolding contains
  contains_iff [] x = ground arith
  contains_iff (y ∷ l) x = ground (arith, same_iff x y, contains_iff l x)

  not-In : (l : List A) (x : A) → contains same l x ≡ false → ¬ In x l
  not-In l x h e = cc (h, (contains_iff l x).1 e)

  In-insert : (y x : A) (l : List A) → In y (insert same x l) ↔ ((y ≡ x) ⊎ In y l)
  unfolding insert
  In-insert y x l = elim (Bool-cases (contains same l x)) [
    | inl old ↦ rw old (
      (λ h. inr h),
      (λ h. elim h [ inl e ↦ subst (λ z. In z l) (sym e) ((contains_iff l x).0 old) | inr h ↦ h ]),
    )
    | inr new ↦ rw new ((λ h. h), (λ h. h))
  ]

  In-retain : (x : A) (c l : List A) → In x (retain same c l) ↔ (In x c × In x l)
  unfolding retain
  In-retain x c [] = ((λ h. absurd h), (λ h. h.1))
  In-retain x c (y ∷ l) = elim (Bool-cases (contains same c y)) [
    | inl here ↦ rw here (
      (λ h. elim h [
        | inl e ↦ (subst (λ z. In z c) (sym e) ((contains_iff c y).0 here), inl e)
        | inr r ↦ (((In-retain x c l).0 r).0, inr ((In-retain x c l).0 r).1)
      ]),
      (λ h. elim h.1 [ inl e ↦ inl e | inr r ↦ inr ((In-retain x c l).1 (h.0, r)) ]),
    )
    | inr gone ↦ rw gone (
      (λ r. (((In-retain x c l).0 r).0, inr ((In-retain x c l).0 r).1)),
      (λ h. elim h.1 [
        | inl e ↦ absurd (not-In c y gone (subst (λ z. In z c) e h.0))
        | inr r ↦ (In-retain x c l).1 (h.0, r)
      ]),
    )
  ]

  -- An Ergot device with the description is on the bus.
  abbrev pub OnBus : A → List (UsbDevice A) → Type 0
  OnBus x [] = ⊥
  OnBus x (device ∷ rest) =
      ((coarse_device_filter device.interfaces ≡ true) × (x ≡ device.info)) ⊎ OnBus x rest

  In-infos : (x : A) (devices : List (UsbDevice A)) → In x (infos same devices) ↔ OnBus x devices
  In-infos x [] = ((λ h. h), (λ h. h))
  In-infos x (device ∷ rest) = elim (Bool-cases (coarse_device_filter device.interfaces)) [
    | inl ergot ↦ rw ergot (
      (λ h. elim ((In-insert x device.info (infos same rest)).0 h) [
        | inl e ↦ inl (refl, e)
        | inr r ↦ inr ((In-infos x rest).0 r)
      ]),
      (λ h.
          (In-insert x device.info (infos same rest)).1
            (elim h [ inl e ↦ inl e.1 | inr r ↦ inr ((In-infos x rest).1 r) ])),
    )
    | inr other ↦ rw other (
      (λ h. inr ((In-infos x rest).0 h)),
      (λ h. elim h [ inl e ↦ cc e.0 | inr r ↦ (In-infos x rest).1 r ]),
    )
  ]

  -- The bus lists the description, or cannot be listed.
  abbrev pub MayBeConnected : {E : Type 0} → A → Result (List (UsbDevice A)) E → Type 0
  MayBeConnected x (err e) = Unit
  MayBeConnected x (ok devices) = OnBus x devices

  In-still_connected :
      {E : Type 0} (x : A) (listing : Result (List (UsbDevice A)) E) (seen : List A)
      → In x (still_connected same (current_device_infos same listing) seen)
        ↔ (MayBeConnected x listing × In x seen)
  unfolding current_device_infos
  In-still_connected x (err e) seen = ((λ h. (tt, h)), (λ h. h.1))
  In-still_connected x (ok devices) seen =
      let r = In-retain x (infos same devices) seen in
      let b = In-infos x devices in ((λ h. (b.0 (r.0 h).0, (r.0 h).1)), (λ h. r.1 (b.1 h.0, h.1)))

  -- The description is among those that could be registered.
  abbrev pub Registers : {F : Type 0} → A → List (A × Result ℕ F) → Type 0
  Registers x [] = ⊥
  Registers x ((info, err e) ∷ rest) = Registers x rest
  Registers x ((info, ok ident) ∷ rest) = (x ≡ info) ⊎ Registers x rest

  In-register :
      {F : Type 0} (x : A) (new : List (A × Result ℕ F)) (seen : List A)
      → In x (register same new seen).0 ↔ (In x seen ⊎ Registers x new)
  unfolding register
  In-register x [] seen = ((λ h. inl h), (λ h. elim h [ inl h ↦ h | inr h ↦ absurd h ]))
  In-register x ((info, err e) ∷ rest) seen = In-register x rest seen
  In-register x ((info, ok ident) ∷ rest) seen =
      let r = In-register x rest (insert same info seen) in
      let i = In-insert x info seen in
      (
        (λ h. elim (r.0 h) [
          | inl k ↦ elim (i.0 k) [ inl e ↦ inr (inl e) | inr k ↦ inl k ]
          | inr k ↦ inr (inr k)
        ]),
        (λ h. r.1 (elim h [
          | inl k ↦ inl (i.1 (inr k))
          | inr (inl e) ↦ inl (i.1 (inl e))
          | inr (inr k) ↦ inr k
        ])),
      )

  -- Where `same` is equality: the devices seen after a pass are those that were seen before and are
  -- still on the bus, or may be because it could not be listed, and those that were new and could be
  -- registered.
  pub In-reconcile :
      {E F : Type 0} (x : A) (listing : Result (List (UsbDevice A)) E)
      (find_new : List A → List (A × Result ℕ F)) (seen : List A)
      → In x (reconcile_and_register_devices same listing find_new seen).0 ↔ (
          (MayBeConnected x listing × In x seen)
          ⊎ Registers x (find_new (still_connected same (current_device_infos same listing) seen)))
  unfolding reconcile_and_register_devices
  In-reconcile x listing find_new seen =
      let known = still_connected same (current_device_infos same listing) seen in
      let r = In-register x (find_new known) known in
      let k = In-still_connected x listing seen in
      (
        (λ h. elim (r.0 h) [ inl a ↦ inl (k.0 a) | inr b ↦ inr b ]),
        (λ h. r.1 (elim h [ inl a ↦ inl (k.1 a) | inr b ↦ inr b ])),
      )

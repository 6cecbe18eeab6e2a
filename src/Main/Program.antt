-- ===== src/Main/Program.antt =====
-- host/src/main.rs: `main`. The command line is what clap makes of it; what the transports and the
-- tasks return is an argument.
use lamella.Base.{
  ap, ℕ, Bool, true, false, if◌then◌else◌, Option, none, some, List, [], ◌∷◌, ◌++◌, ◌≡◌, ◌⊎◌, ◌↔◌,
  inl, inr, refl, Result, ok, err,
}

-- The subcommand.
pub data Transport : Type 0 where
  nusb : Transport
  serial : (port : Option (List ℕ)) → (by_id : Option (List ℕ)) → (baud : ℕ) → Transport

pub record Cli : Type 0 where
  pub transport : Transport
  pub test : Bool
  pub bandwidth : Option (List ℕ)
  pub http : Option (List ℕ)
  pub system_network : Bool
  pub route_metric : ℕ
  pub metrics_file : Option (List ℕ)

-- The function that carries the program.
pub data Run : Type 0 where
  nusb_run : Run
  nusb_test : (bandwidth : Option (List ℕ)) → (http : Option (List ℕ)) → Run
  serial_run : (port : Option (List ℕ)) → (by_id : Option (List ℕ)) → (baud : ℕ) → Run
  serial_test :
      (port : Option (List ℕ))
      → (by_id : Option (List ℕ)) → (baud : ℕ) → (bandwidth : Option (List ℕ))
      → (http : Option (List ℕ)) → Run

-- `match cli.transport`.
unfoldable pub transport_run : Transport → Cli → Run
transport_run nusb cli = if cli.test then nusb_test cli.bandwidth cli.http else nusb_run
transport_run (serial port by_id baud) cli =
    if cli.test
    then serial_test port by_id baud cli.bandwidth cli.http
    else serial_run port by_id baud

-- The tasks besides: the metrics report, and the system network.
pub data Task : Type 0 where
  report : (output : Option (List ℕ)) → Task
  network : (route_metric : ℕ) → Task

unfoldable pub tasks : Cli → List Task
tasks cli =
    (if cli.test then [] else report cli.metrics_file ∷ [])
    ++ (if cli.system_network then network cli.route_metric ∷ [] else [])

-- A task that was awaited: what it returned, or that it panicked.
pub data Joined (E : Type 0) : Type 0 where
  joined : Result (Unit {0}) E → Joined E
  join_error : Joined E

-- The result of `main`, from that of the transport and, if there is one, of the network's task.
unfoldable pub main_result :
    {E : Type 0} → Result (Unit {0}) E → Option (Joined E) → Result (Unit {0}) E
main_result result none = result
main_result result (some join_error) = result
main_result result (some (joined (ok _))) = result
main_result (ok _) (some (joined (err e))) = err e
main_result (err f) (some (joined (err e))) = err f

-- The network's task is awaited if it was started.
unfoldable pub main :
    {E : Type 0} → Cli → (Run → Result (Unit {0}) E) → (ℕ → Joined E) → Result (Unit {0}) E
unfolding transport_run main_result
main cli run network_run =
    main_result (run (transport_run cli.transport cli))
      (if cli.system_network then some (network_run cli.route_metric) else none)

-- The network's task was started and has failed with `e`.
abbrev pub NetworkFails : {E : Type 0} → E → Option (Joined E) → Type 0
NetworkFails e none = ⊥
NetworkFails e (some join_error) = ⊥
NetworkFails e (some (joined (ok _))) = ⊥
NetworkFails e (some (joined (err f))) = f ≡ e

module _ {E : Type 0} where
  main_result_iff :
      (e : E) (result : Result (Unit {0}) E) (network : Option (Joined E))
      → (main_result result network ≡ err e)
        ↔ ((result ≡ err e) ⊎ ((result ≡ ok tt) × NetworkFails e network))
  unfolding main_result
  main_result_iff e (ok u) none = ((λ h. cc), (λ h. elim h [ inl a ↦ a | inr b ↦ absurd b.1 ]))
  main_result_iff e (err f) none = ((λ h. inl h), (λ h. elim h [ inl a ↦ a | inr b ↦ absurd b.1 ]))
  main_result_iff e (ok u) (some join_error) =
      ((λ h. cc), (λ h. elim h [ inl a ↦ a | inr b ↦ absurd b.1 ]))
  main_result_iff e (err f) (some join_error) =
      ((λ h. inl h), (λ h. elim h [ inl a ↦ a | inr b ↦ absurd b.1 ]))
  main_result_iff e (ok u) (some (joined (ok v))) =
      ((λ h. cc), (λ h. elim h [ inl a ↦ a | inr b ↦ absurd b.1 ]))
  main_result_iff e (err f) (some (joined (ok v))) =
      ((λ h. inl h), (λ h. elim h [ inl a ↦ a | inr b ↦ absurd b.1 ]))
  main_result_iff e (ok u) (some (joined (err f))) =
      ((λ h. inr (refl, cc)), (λ h. elim h [ inl a ↦ cc | inr b ↦ cc b.1 ]))
  main_result_iff e (err g) (some (joined (err f))) =
      ((λ h. inl h), (λ h. elim h [ inl a ↦ a | inr b ↦ cc b.0 ]))

  started_iff :
      (e : E) (on : Bool) (joined_task : Joined E)
      → NetworkFails e (if on then some joined_task else none)
        ↔ ((on ≡ true) × (joined_task ≡ joined (err e)))
  started_iff e false task = ((λ h. absurd h), (λ h. cc h.0))
  started_iff e true join_error = ((λ h. absurd h), (λ h. cc h.1))
  started_iff e true (joined (ok u)) = ((λ h. absurd h), (λ h. cc h.1))
  started_iff e true (joined (err f)) = ((λ h. (refl, ap (λ x. joined (err x)) h)), (λ h. cc h.1))

  -- The program fails with an error exactly if the transport has failed with it, or the transport
  -- has not failed and the task for the system network was started and has failed with it; a panic of
  -- that task is no failure.
  pub main-Fails :
      (cli : Cli) (run : Run → Result (Unit {0}) E) (network_run : ℕ → Joined E) (e : E)
      → (main cli run network_run ≡ err e) ↔ (
          (run (transport_run cli.transport cli) ≡ err e)
          ⊎ ((run (transport_run cli.transport cli) ≡ ok tt)
              × (cli.system_network ≡ true)
              × (network_run cli.route_metric ≡ joined (err e))))
  unfolding main
  main-Fails cli run network_run e =
      let result = run (transport_run cli.transport cli) in
      let task = if cli.system_network then some (network_run cli.route_metric) else none in
      let all = main_result_iff e result task in
      let part = started_iff e cli.system_network (network_run cli.route_metric) in
      (
        (λ h. elim (all.0 h) [ inl a ↦ inl a | inr b ↦ inr (b.0, (part.0 b.1).0, (part.0 b.1).1) ]),
        (λ h. all.1 (elim h [ inl a ↦ inl a | inr b ↦ inr (b.0, part.1 (b.1, b.2)) ])),
      )

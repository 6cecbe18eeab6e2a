-- ===== src/SystemNetwork/Routes.antt =====
-- host/src/system_network.rs: `wait_for_tap`, `command_output` and
-- `report_wireguard_routes`. What the programs that are run return is an argument; texts are the lists of their bytes.
use lamella.Base.{
  ℕ, ◌==◌, ◌||◌, ◌&&◌, leb, Bool, false, if◌then◌else◌, Option, none, some, List, [], ◌∷◌, ◌++◌,
  Result, ok, err,
}
use lamella.SerialTransport.Entry.{starts_with}
use lamella.SerialTransport.Target.{split}
use lamella.SystemNetwork.Endpoint.{endpoint_host}
use lamella.SystemNetwork.{TapWait, found, no_ip, cancelled}

-- One pass of the loop of `wait_for_tap`: a cancellation, or what `ip` returned.
unfoldable pub wait_for_tap : {E : Type 0} → List (Option (Result Bool E)) → Option (TapWait E)
wait_for_tap [] = none
wait_for_tap (none ∷ rest) = some cancelled
wait_for_tap (some (err e) ∷ rest) = some (no_ip e)
wait_for_tap (some (ok success) ∷ rest) =
    let on = wait_for_tap rest in if success then some found else on

-- A process that ran: whether it succeeded, and its output, trimmed.
pub record Output : Type 0 where
  pub success : Bool
  pub stdout : List ℕ

pub data CommandError (E : Type 0) : Type 0 where
  not_run : E → CommandError E
  not_successful : CommandError E

unfoldable pub command_output : {E : Type 0} → Result Output E → Result (List ℕ) (CommandError E)
command_output (err e) = err (not_run e)
command_output (ok output) = if output.success then ok output.stdout else err not_successful

-- The programs that `report_wireguard_routes` runs, in order.
pub data Query : Type 0 where
  show_interfaces : Query
  show_endpoints : (interface : List ℕ) → Query
  show_fwmark : (interface : List ℕ) → Query
  route_get : (is_v6 : Bool) → (host : List ℕ) → (mark : Option (List ℕ)) → Query

-- What `wg` prints. That of `ip route get` is only logged.
pub record WireGuard (E : Type 0) : Type 0 where
  pub interfaces : Result (List ℕ) E
  pub endpoints : List ℕ → Result (List ℕ) E
  pub fwmark : List ℕ → Result (List ℕ) E

-- The white space of ASCII.
abbrev pub is_whitespace : ℕ → Bool
is_whitespace c = (leb 9 c && leb c 13) || c == 32

abbrev pub end_word : List ℕ → List (List ℕ) → List (List ℕ)
end_word [] words = words
end_word (c ∷ word) words = (c ∷ word) ∷ words

-- `str::split_whitespace`; `word` is the beginning of a word.
abbrev pub words_from : List ℕ → List ℕ → List (List ℕ)
words_from word [] = end_word word []
words_from word (c ∷ text) =
    if is_whitespace c then end_word word (words_from [] text) else words_from (word ++ c ∷ []) text

unfoldable pub split_whitespace : List ℕ → List (List ℕ)
split_whitespace text = words_from [] text

abbrev pub second : List (List ℕ) → List (List ℕ)
second [] = []
second (a ∷ []) = []
second (a ∷ b ∷ rest) = b ∷ []

-- The second word of each of the lines that have one.
abbrev pub second_words : List (List ℕ) → List (List ℕ)
second_words [] = []
second_words (line ∷ rest) = second (split_whitespace line) ++ second_words rest

-- `lines` differs from this in empty lines and in a `\r` at the end, which have no words.
unfoldable pub endpoints_in : List ℕ → List (List ℕ)
unfolding split split_whitespace
endpoints_in text = second_words (split b'\n' text)

abbrev pub has_colon : List ℕ → Bool
has_colon [] = false
has_colon (c ∷ host) = c == b':' || has_colon host

abbrev pub off : List ℕ
off = b'o' ∷ b'f' ∷ b'f' ∷ []

-- `unwrap_or_else`, and the test against "off".
abbrev pub mark_of : List ℕ → Option (List ℕ)
mark_of fwmark = if starts_with fwmark off && starts_with off fwmark then none else some fwmark

abbrev pub or_off : {E : Type 0} → Result (List ℕ) E → Option (List ℕ)
or_off (err e) = none
or_off (ok fwmark) = mark_of fwmark

abbrev pub route_gets : Option (List ℕ) → List (List ℕ) → List Query
route_gets mark [] = []
route_gets mark (endpoint ∷ rest) =
    let host = endpoint_host endpoint in route_get (has_colon host) host mark ∷ route_gets mark rest

module _ {E : Type 0} (wg : WireGuard E) where
  abbrev pub inspect : List ℕ → Result (List ℕ) E → List Query
  inspect interface (err e) = []
  inspect interface (ok endpoints) =
      show_fwmark interface ∷ route_gets (or_off (wg.fwmark interface)) (endpoints_in endpoints)

  abbrev pub inspect_all : List (List ℕ) → List Query
  inspect_all [] = []
  inspect_all (interface ∷ rest) =
      show_endpoints interface ∷ (inspect interface (wg.endpoints interface) ++ inspect_all rest)

  abbrev pub on_interfaces : Result (List ℕ) E → List Query
  on_interfaces (err e) = []
  on_interfaces (ok interfaces) = inspect_all (split_whitespace interfaces)

  unfoldable pub report_wireguard_routes : List Query
  unfolding split_whitespace endpoints_in split endpoint_host
  report_wireguard_routes = show_interfaces ∷ on_interfaces wg.interfaces

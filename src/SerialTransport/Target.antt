-- ===== src/SerialTransport/Target.antt =====
-- host/src/serial_transport.rs: how `run_test_mode_with_port` reads its targets, `IP:PORT/path` for
-- the download and `IP:PORT` for the bandwidth test, over the bytes of the text. `str::parse` for u8
-- and u16 is the standard library's, so it is a parameter.
pub mod Texts
use lamella.Base.{ℕ, Option, none, some, List, [], ◌∷◌, ◌==◌, if◌then◌else◌, Result, ok, err}

pub data TargetError : Type 0 where
  invalid_http_target invalid_ip_port invalid_bandwidth_target invalid_ip invalid_port : TargetError

-- `Ipv4Address::new(a, b, c, d)`.
pub record Ipv4Address : Type 0 where
  pub a : ℕ
  pub b : ℕ
  pub c : ℕ
  pub d : ℕ

-- The server's address and port.
pub record Server : Type 0 where
  pub server_ip : Ipv4Address
  pub server_port : ℕ

-- `str::split(c)`: there is always a first part.
abbrev pub cons_first : ℕ → List (List ℕ) → List (List ℕ)
cons_first x [] = (x ∷ []) ∷ []
cons_first x (part ∷ parts) = (x ∷ part) ∷ parts

unfoldable pub split : ℕ → List ℕ → List (List ℕ)
split c [] = [] ∷ []
split c (x ∷ s) = let rest = split c s in if x == c then [] ∷ rest else cons_first x rest

-- What stands before the first slash, and the rest, which begins with it.
abbrev pub cons_addr : ℕ → Option (List ℕ × List ℕ) → Option (List ℕ × List ℕ)
cons_addr x none = none
cons_addr x (some (addr, path)) = some (x ∷ addr, path)

unfoldable pub at_slash : List ℕ → Option (List ℕ × List ℕ)
at_slash [] = none
at_slash (x ∷ s) = let rest = at_slash s in if x == b'/' then some ([], x ∷ s) else cons_addr x rest

abbrev pub cons_some : Option ℕ → List ℕ → List ℕ
cons_some none l = l
cons_some (some n) l = n ∷ l

module _ (parse_u8 parse_u16 : List ℕ → Option ℕ) where
  -- `filter_map(|s| s.parse().ok())`.
  unfoldable pub parsed : List (List ℕ) → List ℕ
  parsed [] = []
  parsed (part ∷ parts) = cons_some (parse_u8 part) (parsed parts)

  abbrev pub four : List ℕ → Result Ipv4Address TargetError
  four [] = err invalid_ip
  four (a ∷ []) = err invalid_ip
  four (a ∷ b ∷ []) = err invalid_ip
  four (a ∷ b ∷ c ∷ []) = err invalid_ip
  four (a ∷ b ∷ c ∷ d ∷ []) = ok (record { a = a; b = b; c = c; d = d })
  four (a ∷ b ∷ c ∷ d ∷ e ∷ rest) = err invalid_ip

  unfoldable pub ip_address : List ℕ → Result Ipv4Address TargetError
  ip_address text = four (parsed (split b'.' text))

  abbrev pub with_port : Ipv4Address → Option ℕ → Result Server TargetError
  with_port ip none = err invalid_port
  with_port ip (some port) = ok (record { server_ip = ip; server_port = port })

  abbrev pub with_ip : List ℕ → Result Ipv4Address TargetError → Result Server TargetError
  with_ip port (err e) = err e
  with_ip port (ok ip) = with_port ip (parse_u16 port)

  -- The parts of `IP:PORT`; the message for another number of parts depends on the test.
  abbrev pub server_of : TargetError → List (List ℕ) → Result Server TargetError
  server_of wrong [] = err wrong
  server_of wrong (ip ∷ []) = err wrong
  server_of wrong (ip ∷ port ∷ []) = with_ip port (ip_address ip)
  server_of wrong (ip ∷ port ∷ other ∷ rest) = err wrong

  unfoldable pub bandwidth_target : List ℕ → Result Server TargetError
  unfolding ip_address
  bandwidth_target target = server_of invalid_bandwidth_target (split b':' target)

  abbrev pub with_path : List ℕ → Result Server TargetError → Result (Server × List ℕ) TargetError
  with_path path (err e) = err e
  with_path path (ok server) = ok (server, path)

  abbrev pub http_of : Option (List ℕ × List ℕ) → Result (Server × List ℕ) TargetError
  http_of none = err invalid_http_target
  http_of (some (addr, path)) = with_path path (server_of invalid_ip_port (split b':' addr))

  unfoldable pub http_target : List ℕ → Result (Server × List ℕ) TargetError
  unfolding ip_address
  http_target target = http_of (at_slash target)

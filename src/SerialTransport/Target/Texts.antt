-- ===== src/SerialTransport/Target/Texts.antt =====
-- host/src/serial_transport.rs: texts of targets, and how they are read.
use lamella.Base.{
  ℕ, Option, none, some, List, [], ◌∷◌, ◌++◌, ok, ◌≡◌, ◌≢◌, refl, ◌∙◌, ap, arith, All,
}
use lamella.SerialTransport.Target.{Ipv4Address, split, at_slash, parsed, ip_address, http_target}

-- The byte does not occur.
abbrev pub Lacks : ℕ → List ℕ → Type 0
Lacks c s = All (λ x. x ≢ c) s

split-append : (c : ℕ) (s t : List ℕ) → Lacks c s → split c (s ++ c ∷ t) ≡ s ∷ split c t
unfolding split
split-append c [] t h = ground arith
split-append c (x ∷ s) t h = ground (arith, split-append c s t h.1)

split_one : (c : ℕ) (s : List ℕ) → Lacks c s → split c s ≡ s ∷ []
unfolding split
split_one c [] h = refl
split_one c (x ∷ s) h = ground (arith, split_one c s h.1)

at_slash-append :
    (s path : List ℕ) → Lacks b'/' s → at_slash (s ++ b'/' ∷ path) ≡ some (s, b'/' ∷ path)
unfolding at_slash
at_slash-append [] path h = ground arith
at_slash-append (x ∷ s) path h = ground (arith, at_slash-append s path h.1)

-- `a.b.c.d`.
abbrev pub dotted : List ℕ → List ℕ → List ℕ → List ℕ → List ℕ
dotted a b c d = a ++ (b'.' ∷ (b ++ (b'.' ∷ (c ++ (b'.' ∷ d)))))

split-dotted :
    (a b c d : List ℕ)
    → Lacks b'.' a
    → Lacks b'.' b
    → Lacks b'.' c
    → Lacks b'.' d
    → split b'.' (dotted a b c d) ≡ a ∷ b ∷ c ∷ d ∷ []
split-dotted a b c d ha hb hc hd =
    split-append b'.' a (b ++ (b'.' ∷ (c ++ (b'.' ∷ d)))) ha
    ∙ ap (λ l. a ∷ l) (split-append b'.' b (c ++ (b'.' ∷ d)) hb)
    ∙ ap (λ l. a ∷ b ∷ l) (split-append b'.' c d hc)
    ∙ ap (λ l. a ∷ b ∷ c ∷ l) (split_one b'.' d hd)

module _ (parse_u8 parse_u16 : List ℕ → Option ℕ) where
  -- An address `a.b.c.d`, of four parts that have no dot and are numbers, is read as those numbers,
  -- in this order.
  pub ip_address-dotted :
      (a b c d : List ℕ) (ip : Ipv4Address)
      → Lacks b'.' a
      → Lacks b'.' b
      → Lacks b'.' c
      → Lacks b'.' d
      → parse_u8 a ≡ some ip.a
      → parse_u8 b ≡ some ip.b
      → parse_u8 c ≡ some ip.c
      → parse_u8 d ≡ some ip.d
      → ip_address parse_u8 parse_u16 (dotted a b c d) ≡ ok ip
  unfolding ip_address parsed
  ip_address-dotted a b c d ip ha hb hc hd pa pb pc pd =
      rw (split-dotted a b c d ha hb hc hd, pa, pb, pc, pd)

  -- A download target `host:port/path` is read as its three parts: if the host and the port have no
  -- colon and no slash, the host is read as an address, and the port as a number, the server is that
  -- address with that port, and the path is the rest with its slash.
  pub http_target-parts :
      (host port path : List ℕ) (ip : Ipv4Address) (n : ℕ)
      → Lacks b':' host
      → Lacks b':' port
      → Lacks b'/' (host ++ b':' ∷ port)
      → ip_address parse_u8 parse_u16 host ≡ ok ip
      → parse_u16 port ≡ some n
      → http_target parse_u8 parse_u16 ((host ++ b':' ∷ port) ++ b'/' ∷ path)
        ≡ ok (record { server_ip = ip; server_port = n }, b'/' ∷ path)
  unfolding http_target
  http_target-parts host port path ip n h p s e q = rw (
    at_slash-append (host ++ b':' ∷ port) path s,
    split-append b':' host port h,
    split_one b':' port p,
    e,
    q,
  )

  -- A part of an address that is not a number from 0 to 255 is ignored instead of refused: in front
  -- of any text it makes no difference.
  pub ip_address_ignores :
      (part text : List ℕ)
      → Lacks b'.' part
      → parse_u8 part ≡ none
      → ip_address parse_u8 parse_u16 (part ++ b'.' ∷ text) ≡ ip_address parse_u8 parse_u16 text
  unfolding ip_address parsed
  ip_address_ignores part text h e = rw (split-append b'.' part text h, e)

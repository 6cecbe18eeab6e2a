-- ===== src/TestMode/Download/Counting.antt =====
-- host/src/test_mode.rs: what `run_http_download_test` counts, against the stream of bytes that the
-- server sends.
use lamella.Base.{
  ◌-◌, ◌&&◌, not, ltb, ℕ, Bool, true, false, Option, none, some, List, [], ◌∷◌, ◌++◌, ◌≡◌, refl,
  sym, ap, subst, length, length-append, append-nil, append_assoc, arith,
}
use lamella.Duration.{from_secs}
use lamella.Icd.{u64}
use lamella.TestMode.Ending.{
  while_running, Ending, running, cancelled, complete, panicked, report_since, conclude_test,
  unless_over,
}
use lamella.TestMode.Download.Blank.{
  header_end, after_blank, Locates, header_end-Locates, after_blank-append,
}
use lamella.TestMode.Download.{
  HttpPass, Http, new_http, headers_at, on_bytes, on_data, chunk_in, on_chunk, prepare, conclude,
  http_pass, run_http_download_test,
}

abbrev bytes_of : Option (List ℕ) → List ℕ
bytes_of none = []
bytes_of (some chunk) = chunk

-- The bytes that the closure of `recv` gets until the loop ends, in whatever chunks they come.
pub stream : List (Option HttpPass) → Http → List ℕ
stream [] s = []
stream (none ∷ rest) s = []
stream (some p ∷ rest) s =
    let after = http_pass p s in
    bytes_of (chunk_in p (prepare p s)) ++ while_running after.1 (stream rest after.0)

-- `body` is what follows the headers in `bytes`, if they are over.
abbrev pub CountsBody : Option (List ℕ) → List ℕ → Bool → ℕ → List ℕ → Type 0
CountsBody none bytes headers_done body_bytes header_buf =
    (headers_done ≡ false) × (body_bytes ≡ 0) × (header_buf ≡ bytes)
CountsBody (some body) bytes headers_done body_bytes header_buf =
    (headers_done ≡ true) × (body_bytes ≡ u64 (length body))

abbrev pub Counts : List ℕ → Http → Type 0
Counts bytes s =
    (s.total_bytes ≡ u64 (length bytes))
    × CountsBody (after_blank bytes) bytes s.headers_done s.body_bytes s.header_buf

CountsHttp : Option (List ℕ) → List ℕ → Http → Type 0
CountsHttp o bytes t = CountsBody o bytes t.headers_done t.body_bytes t.header_buf

found-Counts :
    (e : Option ℕ) (o : Option (List ℕ)) (s : Http)
    → Locates e o s.header_buf
    → s.headers_done ≡ false
    → s.body_bytes ≡ 0
    → CountsHttp o s.header_buf (headers_at e s)
unfolding CountsHttp
found-Counts none none s h f z = (f, z, refl)
found-Counts none (some body) s h f z = absurd h
found-Counts (some pos) none s h f z = absurd h
found-Counts (some pos) (some body) s h f z = (refl, omega (arith, h, z))

on_bytes-Counts :
    (o : Option (List ℕ)) (done : Bool) (bytes chunk : List ℕ) (s : Http)
    → after_blank bytes ≡ o
    → s.headers_done ≡ done
    → CountsBody o bytes done s.body_bytes s.header_buf
    → CountsHttp (after_blank (bytes ++ chunk)) (bytes ++ chunk) (on_bytes done chunk s)
unfolding CountsHttp
on_bytes-Counts none false bytes chunk s e d (f, z, b) =
    subst (λ l. CountsHttp (after_blank l) l (on_bytes false chunk s)) (ap (λ l. l ++ chunk) b)
      (found-Counts (header_end (s.header_buf ++ chunk)) (after_blank (s.header_buf ++ chunk))
        (record s { header_buf = s.header_buf ++ chunk })
        (header_end-Locates (s.header_buf ++ chunk)) d z)
on_bytes-Counts none true bytes chunk s e d (f, z, b) = cc
on_bytes-Counts (some body) false bytes chunk s e d (t, n) = cc
on_bytes-Counts (some body) true bytes chunk s e d (t, n) =
    subst (λ o. CountsHttp o (bytes ++ chunk) (on_bytes true chunk s))
      (sym (after_blank-append bytes chunk body e)) (d, omega (arith, n, length-append body chunk))

on_data-Counts :
    (bytes chunk : List ℕ) (s : Http) → Counts bytes s → Counts (bytes ++ chunk) (on_data chunk s)
unfolding CountsHttp
on_data-Counts bytes chunk s (t, b) = (
  omega (arith, t, length-append bytes chunk),
  on_bytes-Counts (after_blank bytes) s.headers_done bytes chunk s refl refl b,
)

on_chunk-Counts :
    (o : Option (List ℕ)) (bytes : List ℕ) (s : Http)
    → Counts bytes s
    → Counts (bytes ++ bytes_of o) (on_chunk o s)
on_chunk-Counts none bytes s c = subst (λ l. Counts l s) (sym (append-nil bytes)) c
on_chunk-Counts (some chunk) bytes s c = on_data-Counts bytes chunk s c

-- What else a pass does leaves the counts alone.
SameCounts : Http → Http → Type 0
SameCounts s t =
    (t.total_bytes ≡ s.total_bytes)
    × (t.body_bytes ≡ s.body_bytes)
    × (t.headers_done ≡ s.headers_done)
    × (t.header_buf ≡ s.header_buf)

same-Counts : (bytes : List ℕ) (s t : Http) → SameCounts s t → Counts bytes s → Counts bytes t
unfolding SameCounts
same-Counts bytes s t (n, b, d, h) c = rw n (rw b (rw d (rw h c)))

report-SameCounts :
    (start : Option ℕ) (s t : Http) → SameCounts s t → SameCounts s (report_since start s t).0
unfolding SameCounts
report-SameCounts none s t h = (refl, refl, refl, refl)
report-SameCounts (some start) s t h = h

conclude_test-SameCounts :
    (active over due : Bool) (start : Option ℕ) (now : ℕ) (s t : Http)
    → SameCounts s t
    → SameCounts s (conclude_test active over due start now s t).0
unfolding SameCounts
conclude_test-SameCounts false over due start now s t h = (refl, refl, refl, refl)
conclude_test-SameCounts true true due start now s t h = (refl, refl, refl, refl)
conclude_test-SameCounts true false true start now s t h = report-SameCounts start s t h
conclude_test-SameCounts true false false start now s t h = (refl, refl, refl, refl)

reported-SameCounts : (now : ℕ) (s : Http) → SameCounts s (record s { last_report = now })
unfolding SameCounts
reported-SameCounts now s = (refl, refl, refl, refl)

conclude-SameCounts : (p : HttpPass) (s : Http) → SameCounts s (conclude p s).0
unfolding conclude
conclude-SameCounts p s =
    conclude_test-SameCounts (s.http_request_sent && s.headers_done)
      (not p.may_recv_after && not p.is_established) (ltb (from_secs 2) (p.now - s.last_report))
      s.start_time p.now s (record s { last_report = p.now }) (reported-SameCounts p.now s)

prepare-SameCounts : (p : HttpPass) (s : Http) → SameCounts s (prepare p s)
unfolding prepare SameCounts
prepare-SameCounts p s = ground arith

pass-Counts :
    (p : HttpPass) (bytes : List ℕ) (s : Http)
    → Counts bytes s
    → Counts (bytes ++ bytes_of (chunk_in p (prepare p s))) (http_pass p s).0
unfolding http_pass
pass-Counts p bytes s c =
    let t = prepare p s in
    same-Counts _ _ _ (conclude-SameCounts p (on_chunk (chunk_in p t) t))
      (on_chunk-Counts (chunk_in p t) bytes t (same-Counts bytes s t (prepare-SameCounts p s) c))

over-Counts :
    (rest after : Http × Ending) (bytes more : List ℕ)
    → Counts bytes after.0
    → Counts (bytes ++ more) rest.0
    → Counts (bytes ++ while_running after.1 more) (unless_over rest after).0
over-Counts rest (s, running) bytes more c d = d
over-Counts rest (s, cancelled) bytes more c d = subst (λ l. Counts l s) (sym (append-nil bytes)) c
over-Counts rest (s, complete t) bytes more c d = subst (λ l. Counts l s) (sym (append-nil bytes)) c
over-Counts rest (s, panicked) bytes more c d = subst (λ l. Counts l s) (sym (append-nil bytes)) c

run-Counts :
    (passes : List (Option HttpPass)) (bytes : List ℕ) (s : Http)
    → Counts bytes s
    → Counts (bytes ++ stream passes s) (run_http_download_test passes s).0
unfolding run_http_download_test stream
run-Counts [] bytes s c = subst (λ l. Counts l s) (sym (append-nil bytes)) c
run-Counts (none ∷ rest) bytes s c = subst (λ l. Counts l s) (sym (append-nil bytes)) c
run-Counts (some p ∷ rest) bytes s c =
    let after = http_pass p s in
    let chunk = bytes_of (chunk_in p (prepare p s)) in
    let more = stream rest after.0 in
    let d = pass-Counts p bytes s c in
    subst (λ l. Counts l (run_http_download_test (some p ∷ rest) s).0)
      (append_assoc bytes chunk (while_running after.1 more))
      (over-Counts (run_http_download_test rest after.0) after (bytes ++ chunk) more d
        (run-Counts rest (bytes ++ chunk) after.0 d))

-- In whatever chunks the response comes, what the download counts is what one would count on the
-- whole stream: all bytes, and those after its first blank line, modulo 2 ^ 64; and the headers are
-- done exactly if there is one.
pub download-Counts :
    (passes : List (Option HttpPass)) (now : ℕ)
    → Counts (stream passes (new_http now)) (run_http_download_test passes (new_http now)).0
unfolding after_blank
download-Counts passes now = run-Counts passes [] (new_http now) (refl, (refl, refl, refl))

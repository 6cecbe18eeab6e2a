-- ===== src/Firmware/SerialTx.antt =====
-- firmware-c3/src/bin/main.rs: `run_tx`, which writes what Ergot has to send to the USB serial port.
-- What it takes, and how the writes end, is an argument.
use lamella.Base.{
  ℕ, ◌+◌, ◌%◌, ◌==◌, Bool, if◌then◌else◌, List, [], ◌∷◌, ◌++◌, ◌≡◌, refl, sym, ap, ◌∙◌, append-nil,
  append_assoc, Bool-cases, inl, inr, length, length-append, arith,
}

-- A chunk that was taken from the queue: its bytes, and whether writing them succeeds. What comes of a flush is
-- only logged.
pub record Chunk : Type 0 where
  pub data_read : List ℕ
  pub write_succeeds : Bool

-- What the port does: it is given the bytes of a chunk, or flushed.
pub data PortCall : Type 0 where
  write_all : List ℕ → PortCall
  flush : PortCall

pub record SerialTx : Type 0 where
  pub calls : List PortCall
  pub released : ℕ

abbrev pub new_serial_tx : SerialTx
new_serial_tx = record { calls = []; released = 0 }

-- The calls for a chunk; one that fails is the last.
unfoldable pub calls_for : Chunk → List PortCall
calls_for chunk =
    if chunk.write_succeeds
    then if length chunk.data_read % 64 == 0
      then write_all chunk.data_read ∷ flush ∷ []
      else write_all chunk.data_read ∷ []
    else write_all chunk.data_read ∷ []

-- `data.release(len)` whatever the result is.
unfoldable pub run_tx : List Chunk → SerialTx → SerialTx
unfolding calls_for
run_tx [] s = s
run_tx (chunk ∷ rest) s =
    run_tx rest (record {
      calls = s.calls ++ calls_for chunk;
      released = s.released + length chunk.data_read;
    })

abbrev pub all_data : List Chunk → List ℕ
all_data [] = []
all_data (chunk ∷ rest) = chunk.data_read ++ all_data rest

abbrev pub all_written : List PortCall → List ℕ
all_written [] = []
all_written (write_all bytes ∷ rest) = bytes ++ all_written rest
all_written (flush ∷ rest) = all_written rest

all_written-append : (a b : List PortCall) → all_written (a ++ b) ≡ all_written a ++ all_written b
all_written-append [] b = refl
all_written-append (write_all bytes ∷ a) b =
    ap (λ l. bytes ++ l) (all_written-append a b)
    ∙ sym (append_assoc bytes (all_written a) (all_written b))
all_written-append (flush ∷ a) b = all_written-append a b

all_written-calls_for : (chunk : Chunk) → all_written (calls_for chunk) ≡ chunk.data_read
unfolding calls_for
all_written-calls_for chunk =
    let write = append-nil chunk.data_read in
    elim (Bool-cases chunk.write_succeeds) [
      | inl e ↦ elim (Bool-cases (length chunk.data_read % 64 == 0)) [
        | inl short ↦ rw e (rw short write)
        | inr long ↦ rw e (rw long write)
      ]
      | inr e ↦ rw e write
    ]

-- From any state, whatever fails: the port is given each chunk once, in order, and all of it is released.
pub all_written-run_tx :
    (chunks : List Chunk) (s : SerialTx)
    → (all_written (run_tx chunks s).calls ≡ all_written s.calls ++ all_data chunks)
      × ((run_tx chunks s).released ≡ s.released + length (all_data chunks))
unfolding run_tx
all_written-run_tx [] s = (sym (append-nil (all_written s.calls)), omega arith)
all_written-run_tx (chunk ∷ rest) s =
    let next : SerialTx = record {
      calls = s.calls ++ calls_for chunk;
      released = s.released + length chunk.data_read;
    } in
    let (written, released) = all_written-run_tx rest next in
    (
      written
          ∙ ap (λ l. l ++ all_data rest)
              (all_written-append s.calls (calls_for chunk)
                ∙ ap (λ l. all_written s.calls ++ l) (all_written-calls_for chunk))
          ∙ append_assoc (all_written s.calls) chunk.data_read (all_data rest),
      omega (arith, released, length-append chunk.data_read (all_data rest)),
    )

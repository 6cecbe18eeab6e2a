-- ===== src/TapReader.antt =====
-- host/src/serial_transport.rs and host/src/nusb_transport.rs: `tap_reader`, which reads frames from
-- the TAP device into the queue of the exchange task. The two files have the same text.
pub mod Frames
use lamella.Base.{
  ℕ, Bool, true, false, Option, none, some, List, [], ◌∷◌, ◌++◌, Result, ok, err, length,
}
use lamella.Icd.{WifiFrame, frame_of_slice}
use lamella.Metrics.{BridgeMetrics, record_tap_rx, record_tap_error}

-- The inner `select!`: the queue takes the frame, or is closed, or the task is cancelled.
pub data Sending : Type 0 where
  taken queue_closed send_cancelled : Sending

-- The outer `select!`: `tap_device.recv` returns, with the bytes `&buf[..n]`, or the task is
-- cancelled.
pub data TapEvent (E : Type 0) : Type 0 where
  read : Result (List ℕ) E → Sending → TapEvent E
  cancelled : TapEvent E

-- The metrics, and the frames that the queue took, the oldest first.
pub record Reader : Type 0 where
  pub metrics : BridgeMetrics
  pub queued : List WifiFrame

-- One pass: the new state, and whether the task goes on.
unfoldable pub send_frame : ℕ → Option WifiFrame → Sending → Reader → Reader × Bool
send_frame n none sending r = (r, true)
send_frame n (some frame) taken r =
    (record { metrics = record_tap_rx n r.metrics; queued = r.queued ++ frame ∷ [] }, true)
send_frame n (some frame) queue_closed r = (record r { metrics = record_tap_rx n r.metrics }, false)
send_frame n (some frame) send_cancelled r =
    (record r { metrics = record_tap_rx n r.metrics }, false)

unfoldable pub read_frame : {E : Type 0} → TapEvent E → Reader → Reader × Bool
unfolding send_frame frame_of_slice
read_frame cancelled r = (r, false)
read_frame (read (err e) sending) r = (record r { metrics = record_tap_error r.metrics }, true)
read_frame (read (ok []) sending) r = (r, true)
read_frame (read (ok (b ∷ bytes)) sending) r =
    send_frame (length (b ∷ bytes)) (frame_of_slice (b ∷ bytes)) sending r

-- `false`: the task has ended.
unfoldable pub tap_reader : {E : Type 0} → List (TapEvent E) → Reader → Reader × Bool
unfolding read_frame
tap_reader [] r = (r, true)
tap_reader (event ∷ rest) r =
    let (r', goes_on) = read_frame event r in
    elim goes_on [ true ↦ tap_reader rest r' | false ↦ (r', false) ]

-- ===== src/TapReader/Frames.antt =====
-- host/src/serial_transport.rs and host/src/nusb_transport.rs: what `tap_reader` puts into the
-- queue.
use lamella.Base.{
  ℕ, List, [], ◌∷◌, ◌++◌, ok, err, length, ◌≡◌, arith, append-nil, append_assoc, leb, if◌then◌else◌,
}
use lamella.Icd.{WifiFrame, max_frame_size}
use lamella.Metrics.{record_tap_rx}
use lamella.TapReader.{
  taken, queue_closed, send_cancelled, TapEvent, read, cancelled, Reader, tap_reader,
}

-- An Ethernet frame that was read: not empty, and of at most the maximal size.
abbrev pub frames_in : List ℕ → List WifiFrame
frames_in [] = []
frames_in (b ∷ bytes) =
    if leb (length (b ∷ bytes)) max_frame_size then record { bytes = b ∷ bytes } ∷ [] else []

-- The frames that were read before the task ended, and that the queue could take.
abbrev pub frames_read : {E : Type 0} → List (TapEvent E) → List WifiFrame
frames_read [] = []
frames_read (cancelled ∷ rest) = []
frames_read (read (err e) sending ∷ rest) = frames_read rest
frames_read (read (ok bytes) taken ∷ rest) = frames_in bytes ++ frames_read rest
frames_read (read (ok bytes) queue_closed ∷ rest) = elim (frames_in bytes) [
  | [] ↦ frames_read rest
  | _ ∷ _ ↦ []
]
frames_read (read (ok bytes) send_cancelled ∷ rest) = elim (frames_in bytes) [
  | [] ↦ frames_read rest
  | _ ∷ _ ↦ []
]

-- The queue gets, in order, the frames that were read until the task ended: those that are not
-- empty and at most 1514 bytes long, and no others.
pub tap_reader-queued :
    {E : Type 0} (events : List (TapEvent E)) (r : Reader)
    → (tap_reader events r).0.queued ≡ r.queued ++ frames_read events
unfolding tap_reader
tap_reader-queued [] r = simp append-nil
tap_reader-queued (cancelled ∷ rest) r = simp append-nil
tap_reader-queued (read (err e) sending ∷ rest) r = tap_reader-queued rest _
tap_reader-queued (read (ok []) taken ∷ rest) r = tap_reader-queued rest r
tap_reader-queued (read (ok []) queue_closed ∷ rest) r = tap_reader-queued rest r
tap_reader-queued (read (ok []) send_cancelled ∷ rest) r = tap_reader-queued rest r
tap_reader-queued (read (ok (b ∷ bytes)) taken ∷ rest) r = ground (
  arith,
  tap_reader-queued rest (record {
    metrics = record_tap_rx (length (b ∷ bytes)) r.metrics;
    queued = r.queued ++ record { bytes = b ∷ bytes } ∷ [];
  }),
  append_assoc r.queued (record { bytes = b ∷ bytes } ∷ []) (frames_read rest),
  tap_reader-queued rest r,
)
tap_reader-queued (read (ok (b ∷ bytes)) queue_closed ∷ rest) r =
    ground (arith, tap_reader-queued rest r, append-nil r.queued)
tap_reader-queued (read (ok (b ∷ bytes)) send_cancelled ∷ rest) r =
    ground (arith, tap_reader-queued rest r, append-nil r.queued)

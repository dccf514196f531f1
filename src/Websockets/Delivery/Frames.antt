-- ===== src/Websockets/Delivery/Frames.antt =====
-- The frames that a client of src/websockets.cpp is given.
use wasapi.Base.{
  ℕ, ◌≡◌, ◌∙◌, sym, ap, Option, none, some, List, [], ◌∷◌, ◌++◌, Bytes, ◌==◌, append_assoc,
  append-nil, if◌then◌else◌, if_elim, arith,
}
use wasapi.Websockets.Delivery.{Outlet, PendingFrame, queue_frame, deliver}

-- What stands in the output buffer of a client.
unfoldable pub buffer : ℕ → List (ℕ × Outlet) → Option Bytes
buffer fd [] = none
buffer fd ((j, c) ∷ cs) = if j == fd then some c.out_buf else buffer fd cs

-- The frames for a descriptor, one behind the other.
unfoldable pub frames_for : ℕ → List PendingFrame → Bytes
frames_for fd [] = []
frames_for fd (p ∷ ps) = if p.fd == fd then p.frame ++ frames_for fd ps else frames_for fd ps

unfoldable pub frame_for : ℕ → PendingFrame → Bytes
frame_for fd p = if p.fd == fd then p.frame else []

buffer-queue_frame :
    (fd : ℕ) (p : PendingFrame) (cs : List (ℕ × Outlet)) (s : Bytes)
    → buffer fd cs ≡ some s
    → buffer fd (queue_frame p cs) ≡ some (s ++ frame_for fd p)
unfolding buffer queue_frame frame_for
buffer-queue_frame fd p [] s h = ground (arith, h)
buffer-queue_frame fd p ((j, c) ∷ cs) s h =
    if_elim (λ (l : List (ℕ × Outlet)). buffer fd l ≡ some (s ++ frame_for fd p)) (j == p.fd)
      (λ b. ground (arith, h, b, append-nil s))
      (λ b. ground (arith, h, b, append-nil s, buffer-queue_frame fd p cs s))

frames_for-frame :
    (fd : ℕ) (p : PendingFrame) (ps : List PendingFrame)
    → frames_for fd (p ∷ ps) ≡ frame_for fd p ++ frames_for fd ps
unfolding frames_for frame_for
frames_for-frame fd p ps = ground arith

-- A client that is there is given all pending frames for its descriptor, in their order, behind what its
-- buffer holds.
pub buffer-deliver :
    (fd : ℕ) (ps : List PendingFrame) (cs : List (ℕ × Outlet)) (s : Bytes)
    → buffer fd cs ≡ some s
    → buffer fd (deliver ps cs) ≡ some (s ++ frames_for fd ps)
unfolding deliver frames_for
buffer-deliver fd [] cs s h = h ∙ ap some (sym (append-nil s))
buffer-deliver fd (p ∷ ps) cs s h =
    buffer-deliver fd ps (queue_frame p cs) (s ++ frame_for fd p) (buffer-queue_frame fd p cs s h)
    ∙ ap some (
        append_assoc s (frame_for fd p) (frames_for fd ps)
        ∙ ap (λ t. s ++ t) (sym (frames_for-frame fd p ps)))

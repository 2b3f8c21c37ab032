-- ===== src/Network/Sequence.antt =====
-- A TCP connection of src/libc/network.cpp from its start on: segments and reads in any order.
use mr_hak_os.Prelude.{
  ℕ, ◌+◌, ◌-◌, ◌≤◌, ◌<◌, ◌≡◌, ◌∙◌, List, [], ◌∷◌, ◌++◌, Option, some, arith, ◌^◌, length, get_or,
  subst, length-append, dec_lt, get_or-append_left, get_or-append_right, ap,
}
use mr_hak_os.Network.State.{Tcp}
use mr_hak_os.Network.Packet.{Returns, ◌>>=◌, returns, Returns-bind}
use mr_hak_os.Network.Session.{Delivered, Carries, stream_read, received}
use mr_hak_os.Network.Stream.{accept_data}
use mr_hak_os.Network.Reading.{stream_read-Read}
use mr_hak_os.Network.InOrder.{accept_data-Delivered}

-- What happens to a connection: a segment comes, or the program reads up to `needed` bytes.
pub data Event : Type 0 where
  segment : ℕ → List ℕ → Event
  stream_read_of : ℕ → Event

-- The connection, and all that the program has read.
pub record Session : Type 0 where
  pub tcp : Tcp
  pub output : List ℕ

unfoldable pub step : Event → Session → Option Session
unfolding ◌>>=◌
step (segment seq payload) s = do t ← accept_data seq payload s.tcp; some (record s { tcp = t })
step (stream_read_of needed) s = do
  got ← stream_read needed s.tcp
  some (record { tcp = got.1; output = s.output ++ got.0 })

unfoldable pub run : List Event → Session → Option Session
unfolding ◌>>=◌
run [] s = some s
run (e ∷ events) s = step e s >>= run events

-- The segments carry parts of a stream of `size` bytes, in any order, again and again, whole or cut differently.
abbrev pub FromPeer : (ℕ → ℕ) → ℕ → ℕ → Event → Type 0
FromPeer stream base size (segment seq payload) =
    (q : ℕ) × Carries stream base q seq payload
    × (q + length payload ≤ size)
    × (length payload < 2 ^ 16)
FromPeer stream base size (stream_read_of needed) = Unit

abbrev pub AllFromPeer : (ℕ → ℕ) → ℕ → ℕ → List Event → Type 0
AllFromPeer stream base size [] = Unit
AllFromPeer stream base size (e ∷ events) =
    FromPeer stream base size e × AllFromPeer stream base size events

-- The program has read the beginning of the stream.
pub record InOrder (stream : ℕ → ℕ) (base size : ℕ) (s : Session) : Type 0 where
  pub place : ℕ
  pub inside : place ≤ size
  pub connection : Delivered stream base (length s.output) place s.tcp
  pub so_far : (i : ℕ) → i < length s.output → get_or s.output i 0 ≡ stream i

segment-InOrder :
    (stream : ℕ → ℕ) (base size seq : ℕ) (payload : List ℕ) (s : Session)
    → size < 2 ^ 31
    → FromPeer stream base size (segment seq payload)
    → InOrder stream base size s
    → Returns (InOrder stream base size) (step (segment seq payload) s)
unfolding step
segment-InOrder stream base size seq payload s small (q, c, end, h) o =
    Returns-bind
      (accept_data-Delivered stream base (length s.output) o.place q seq payload s.tcp o.connection
        c h (omega (arith, o.inside)) (omega arith))
      (λ t d. returns _ (record {
        place = received (length s.output) o.place q (length payload);
        inside = ground (arith, o.inside);
        connection = d.0;
        so_far = o.so_far;
      }))

stream_read_of-InOrder :
    (stream : ℕ → ℕ) (base size needed : ℕ) (s : Session)
    → InOrder stream base size s
    → Returns (InOrder stream base size) (step (stream_read_of needed) s)
unfolding step
stream_read_of-InOrder stream base size needed s o =
    let r = length s.output in
    Returns-bind (stream_read-Read stream base r o.place needed s.tcp o.connection) (λ got g.
      returns _ (record {
        place = o.place;
        inside = o.inside;
        connection =
            subst (λ m. Delivered stream base m o.place got.1)
              (omega (arith, length-append s.output got.0, g.size)) g.rest;
        so_far = λ i h. elim (dec_lt i r) [
          | yes old ↦ get_or-append_left s.output got.0 i 0 old ∙ o.so_far i old
          | no new ↦
              get_or-append_right s.output got.0 i 0 (omega arith)
              ∙ g.matches (i - r) (omega (arith, length-append s.output got.0, g.size))
              ∙ ap stream (omega arith)
        ];
      }))

-- Whatever way the network takes with the segments of a stream of less than 2^31 bytes (lost, repeated, overlapping, in
-- another order), and whatever the program reads between them, all that it has read is the beginning of the stream,
-- and what waits in the buffer is what follows.
pub run-InOrder :
    (stream : ℕ → ℕ) (base size : ℕ) (events : List Event) (s : Session)
    → size < 2 ^ 31
    → AllFromPeer stream base size events
    → InOrder stream base size s
    → Returns (InOrder stream base size) (run events s)
unfolding run
run-InOrder stream base size [] s small h o = returns s o
run-InOrder stream base size (segment seq payload ∷ events) s small h o =
    Returns-bind (segment-InOrder stream base size seq payload s small h.0 o)
      (λ u. run-InOrder stream base size events u small h.1)
run-InOrder stream base size (stream_read_of needed ∷ events) s small h o =
    Returns-bind (stream_read_of-InOrder stream base size needed s o)
      (λ u. run-InOrder stream base size events u small h.1)

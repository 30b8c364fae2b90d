-- ===== src/Mixer/Source/Inv.antt =====
-- The buffer stays inside its storage.
use talk_sip_bridge.Base.{
  ℕ, ◌+◌, ◌-◌, ◌%◌, ◌≤◌, ◌<◌, min, ◌≡◌, inl, inr, List, arith, leb, leb→le, Bool-cases, length,
  take, drop, length-drop, length-replicate,
}
use talk_sip_bridge.Base.Int.{ℤ, pos}
use talk_sip_bridge.Base.Arrays.{splice, length-splice}
use talk_sip_bridge.Mixer.Source.{SourceBuffer, new, write_tail, make_room, copy_in, write, read}

pub record IsValid (s : SourceBuffer) : Type 0 where
  pub storage : length s.buffer ≡ s.capacity
  pub in_ring : s.read_at < s.capacity
  pub fits : s.available ≤ s.capacity

pub new-IsValid : (c : ℕ) → 0 < c → IsValid (new c)
unfolding new
new-IsValid c h = ground (arith, length-replicate c (pos 0))

pub write_tail-IsValid :
    (s : SourceBuffer) (pcm : List ℤ)
    → IsValid s
    → s.capacity ≤ length pcm
    → IsValid (write_tail s pcm)
unfolding write_tail
write_tail-IsValid s pcm v h = ground (arith, length-drop (length pcm - s.capacity) pcm)

-- Room is made without moving the end, or there was room.
pub record Roomy (s : SourceBuffer) (n : ℕ) (t : SourceBuffer) : Type 0 where
  pub valid : IsValid t
  pub room : t.available + n ≤ t.capacity
  pub same_buffer : t.buffer ≡ s.buffer
  pub same_capacity : t.capacity ≡ s.capacity
  pub same_underruns : t.underruns ≡ s.underruns
  pub counted : t.dropped + t.available ≡ s.dropped + s.available

pub make_room-Roomy :
    (s : SourceBuffer) (n : ℕ) → IsValid s → n < s.capacity → Roomy s n (make_room s n)
unfolding make_room
make_room-Roomy s n v h = ground arith

pub copy_in-IsValid :
    (s : SourceBuffer) (pcm : List ℤ)
    → IsValid s
    → s.available + length pcm ≤ s.capacity
    → IsValid (copy_in s pcm)
unfolding copy_in
copy_in-IsValid s pcm v h =
    let at = (s.read_at + s.available) % s.capacity in
    let first = min (length pcm) (s.capacity - at) in
    let front = splice s.buffer at (take first pcm) in
    ground
      (arith, length-splice s.buffer at (take first pcm), length-splice front 0 (drop first pcm))

-- Writing keeps the buffer inside its storage, whatever is written: the read position is in the
-- ring, the storage keeps its length, and no more samples are available than it holds.
write-IsValid : (s : SourceBuffer) (pcm : List ℤ) → IsValid s → IsValid (write s pcm)
unfolding write
write-IsValid s pcm v = elim (Bool-cases (leb s.capacity (length pcm))) [
  | inl big ↦ rw big (write_tail-IsValid s pcm v (leb→le _ _ big))
  | inr small ↦ rw small (
      let r = make_room-Roomy s (length pcm) v (ground arith) in
      copy_in-IsValid (make_room s (length pcm)) pcm r.valid r.room)
]

-- Reading keeps the buffer inside its storage, however many samples are asked for.
read-IsValid : (s : SourceBuffer) (count : ℕ) → IsValid s → IsValid (read s count).1
unfolding read
read-IsValid s count v = ground arith

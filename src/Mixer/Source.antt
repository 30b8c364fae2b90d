-- ===== src/Mixer/Source.antt =====
-- `SourceBuffer` of bridge/mixer.py: a ring of samples. Samples are only moved.
pub mod Inv
use talk_sip_bridge.Base.{
  ℕ, zero, suc, ◌+◌, ◌-◌, ◌*◌, ◌/◌, ◌%◌, ◌^◌, ◌≤◌, ◌<◌, min, ◌≡◌, refl, sym, ap, ap₂, ◌∙◌, ◌≢◌, ◌↔◌,
  ◌⊎◌, inl, inr, Bool, true, false, not, ◌&&◌, ◌||◌, Option, none, some, List, [], ◌∷◌, ◌++◌, map,
  arith, ltb, leb, ◌==◌, if◌then◌else◌, ltb→lt, lt→ltb, leb→le, ==_iff, Bool-cases, Option-cases,
  length, get_or, set, take, drop, replicate, All, length-append, take-append-drop, length-take,
  length-drop, length-replicate, All-append, length_zero, take-append, drop-append,
}
use talk_sip_bridge.Base.Int.{ℤ, pos}
use talk_sip_bridge.Base.Arrays.{splice}

pub record SourceBuffer : Type 0 where
  pub buffer : List ℤ
  pub capacity : ℕ
  pub read_at : ℕ
  pub available : ℕ
  pub underruns : ℕ
  pub dropped : ℕ

unfoldable pub new : ℕ → SourceBuffer
new capacity = record {
  buffer = replicate capacity (pos 0);
  capacity = capacity;
  read_at = 0;
  available = 0;
  underruns = 0;
  dropped = 0;
}

-- A write that fills the whole buffer: its tail is kept.
unfoldable pub write_tail : SourceBuffer → List ℤ → SourceBuffer
write_tail s pcm = record s {
  dropped = s.dropped + (s.available + length pcm - s.capacity);
  buffer = drop (length pcm - s.capacity) pcm;
  read_at = 0;
  available = s.capacity;
}

-- `if len(pcm) > free`: the oldest samples are dropped to make room.
unfoldable pub make_room : SourceBuffer → ℕ → SourceBuffer
make_room s count =
    let free = s.capacity - s.available in
    let behind = count - free in
    if ltb free count
    then record s {
      read_at = (s.read_at + behind) % s.capacity;
      available = s.available - behind;
      dropped = s.dropped + behind;
    }
    else s

-- The copy, in one piece or in two, where there is room.
unfoldable pub copy_in : SourceBuffer → List ℤ → SourceBuffer
copy_in s pcm =
    let at = (s.read_at + s.available) % s.capacity in
    let first = min (length pcm) (s.capacity - at) in
    let front = splice s.buffer at (take first pcm) in
    record s {
      buffer = if ltb first (length pcm) then splice front 0 (drop first pcm) else front;
      available = s.available + length pcm;
    }

unfoldable pub write : SourceBuffer → List ℤ → SourceBuffer
write s pcm =
    if leb s.capacity (length pcm) then write_tail s pcm else copy_in (make_room s (length pcm)) pcm

-- The samples that a read of `have` takes out, in one piece or in two.
unfoldable pub copy_out : SourceBuffer → ℕ → List ℤ
copy_out s have =
    let first = min have (s.capacity - s.read_at) in
    take first (drop s.read_at s.buffer) ++ take (have - first) s.buffer

abbrev count_underrun : SourceBuffer → ℕ → ℕ → SourceBuffer
count_underrun s have count = if ltb have count then record s { underruns = s.underruns + 1 } else s

unfoldable pub read : SourceBuffer → ℕ → List ℤ × SourceBuffer
read s count =
    let have = min count s.available in
    if have == 0 then (replicate count (pos 0), count_underrun s have count) else (
      copy_out s have ++ replicate (count - have) (pos 0),
      count_underrun
          (record s { read_at = (s.read_at + have) % s.capacity; available = s.available - have })
          have count,
    )

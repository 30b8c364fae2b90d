-- ===== src/Rtp/Numbered.antt =====
-- How the packets of audio are numbered.
use talk_sip_bridge.Base.{
  ℕ, suc, ◌+◌, ◌*◌, ◌/◌, ◌%◌, ◌≡◌, refl, ap, List, [], ◌∷◌, arith, length, drop,
}
use talk_sip_bridge.Base.Text.{Text}
use talk_sip_bridge.Base.Chunks.{chunks}
use talk_sip_bridge.Rtp.{Samples, Media, RtpSession, pack_header, be16, be32, clock_increment}
use talk_sip_bridge.Rtp.Sending.{encode, send_chunk, send_chunks, send_pcm}
use talk_sip_bridge.Rtp.Receiving.{unpack32}

-- `struct.unpack("!H", ...)` of two bytes.
unfoldable pub unpack16 : Text → ℕ
unpack16 (a ∷ b ∷ rest) = a * 256 + b
unpack16 _ = 0

-- Packets that are numbered from a sequence number and a timestamp on.
abbrev pub AreNumbered : ℕ → ℕ → List Text → Type 0
AreNumbered seq timestamp [] = Unit
AreNumbered seq timestamp (p ∷ ps) =
    (unpack16 (drop 2 p) ≡ seq % 65536)
    × (unpack32 (drop 4 p) ≡ timestamp % 4294967296)
    × AreNumbered (seq + 1) (timestamp + clock_increment) ps

two_bytes : (n : ℕ) → n % 65536 / 256 % 256 * 256 + n % 65536 % 256 ≡ n % 65536
two_bytes n = omega arith

four_bytes :
    (n : ℕ)
    → ((n % 4294967296 / 16777216 % 256 * 256 + n % 4294967296 / 65536 % 256) * 256
            + n % 4294967296 / 256 % 256)
          * 256
        + n % 4294967296 % 256
      ≡ n % 4294967296
four_bytes n = omega arith

-- Encoding leaves the numbers of a session alone.
encode_numbers :
    (m : Media) (s : RtpSession) (c : Samples)
    → let t = (encode m s c).0 in (t.ssrc ≡ s.ssrc) × (t.payload_type ≡ s.payload_type)
unfolding encode
encode_numbers m s c = ground arith

chunks_AreNumbered :
    (m : Media) (s : RtpSession) (cs : List Samples)
    → let (t, sent) = send_chunks m s cs in
      AreNumbered s.seq s.timestamp sent
      × (length sent ≡ length cs)
      × (t.seq ≡ s.seq + length cs)
      × (t.timestamp ≡ s.timestamp + length cs * clock_increment)
unfolding send_chunks send_chunk pack_header be16 be32 unpack16 unpack32
chunks_AreNumbered m s [] = (tt, refl, ground arith, ground arith)
chunks_AreNumbered m s (c ∷ cs) =
    let (t, packet) = send_chunk m s c in
    let (more, count, seqs, times) = chunks_AreNumbered m t cs in
    ((two_bytes s.seq, four_bytes s.timestamp, more), ap suc count, omega arith, omega arith)

-- The packets of some audio are numbered one after the other, and their timestamps are 160 apart,
-- both around the ends of their ranges; the next packet of the session goes on from there.
pub audio_is_numbered :
    (m : Media) (s : RtpSession) (pcm : Samples)
    → let (t, sent) = send_pcm m s pcm in
      AreNumbered s.seq s.timestamp sent
      × (t.seq ≡ s.seq + length sent)
      × (t.timestamp ≡ s.timestamp + length sent * clock_increment)
unfolding send_pcm
audio_is_numbered m s pcm =
    let cs = chunks (length pcm) s.samples_per_packet pcm in
    let (numbers, count, seqs, times) = chunks_AreNumbered m s cs in
    (numbers, rw count seqs, rw count times)

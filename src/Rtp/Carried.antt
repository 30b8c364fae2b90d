-- ===== src/Rtp/Carried.antt =====
-- The audio of one session at the other end of the line.
use talk_sip_bridge.Base.{
  ℕ, suc, ◌%◌, ◌<◌, ◌≡◌, refl, sym, ap, ap₂, ◌∙◌, ◌⊎◌, inl, inr, true, false, not, ◌&&◌, Option,
  none, some, List, [], ◌∷◌, ◌++◌, map, arith, ltb, ◌==◌, if◌then◌else◌, Bool-cases, length,
}
use mathlib.Core.Path.{subst}
use mathlib.Core.List.{append_assoc, append-nil}
use talk_sip_bridge.Base.Text.{Text, text_eq, text_eq_iff}
use talk_sip_bridge.Base.Chunks.{chunks, AreChunks, chunks-AreChunks}
use talk_sip_bridge.Codec.{linear_to_ulaw, linear_to_alaw, ulaw_to_linear, alaw_to_linear}
use talk_sip_bridge.Inband.{InbandDtmf}
use talk_sip_bridge.Rtp.{Samples, Media, RtpSession, pcmu, pcma, pack_header, be16, be32}
use talk_sip_bridge.Rtp.Sending.{encode, send_chunk, send_chunks, send_pcm}
use talk_sip_bridge.Rtp.Receiving.{
  decode, handle_packet, handle_audio, take_audio, noticed, listen, report_digit, report_heard,
  receive, after_packet, recv_loop, Arrival, is_pt, samples, Decoded,
}

-- Audio of a codec that keeps no state, coded and decoded.
unfoldable pub coded : ℕ → Samples → Samples
coded pt c =
    if pt == pcma
    then map alaw_to_linear (map linear_to_alaw c)
    else map ulaw_to_linear (map linear_to_ulaw c)

-- Nothing but `take_audio` touches the queue, and nothing touches the rest.
abbrev Keeps : RtpSession → RtpSession → Type 0
Keeps r t =
    (t.recv_queue ≡ r.recv_queue)
    × (t.remote_addr ≡ r.remote_addr)
    × (t.dtmf_payload_type ≡ r.dtmf_payload_type)

noticed-Keeps : (r : RtpSession) (pt : ℕ) → Keeps r (noticed r pt)
noticed-Keeps r pt =
    elim (Bool-cases (not (pt == r.payload_type) && not (is_pt r.reported_pt pt))) [
      | inl new ↦ rw new (refl, refl, refl)
      | inr old ↦ rw old (refl, refl, refl)
    ]

Keeps-trans : (r s t : RtpSession) → Keeps r s → Keeps s t → Keeps r t
Keeps-trans r s t (q, a, d) (u, b, e) = (u ∙ q, b ∙ a, e ∙ d)

listen_with :
    (m : Media) (r : RtpSession) (pcm : Samples) (i : Option InbandDtmf)
    → r.inband ≡ i
    → Keeps r (listen m r pcm).0
unfolding listen
listen_with m r pcm none e = rw (listen, e) (refl, refl, refl)
listen_with m r pcm (some i) e = rw (listen, e) (refl, refl, refl)

report_heard-Keeps :
    (r : RtpSession) (digit : Option ℕ) (now : ℕ) → Keeps r (report_heard r digit now).0
unfolding report_digit
report_heard-Keeps r none now = (refl, refl, refl)
report_heard-Keeps r (some d) now = (refl, refl, refl)

-- What audio adds to a session: one block in its queue.
abbrev Gets : RtpSession → Samples → RtpSession → Type 0
Gets r pcm t =
    (t.recv_queue ≡ r.recv_queue ++ pcm ∷ [])
    × (t.remote_addr ≡ r.remote_addr)
    × (t.dtmf_payload_type ≡ r.dtmf_payload_type)

audio_is_taken :
    (m : Media) (r : RtpSession) (pcm : Samples) (now : ℕ)
    → Gets r pcm (after_packet (take_audio m r (samples pcm) now) now).0
unfolding take_audio
audio_is_taken m r pcm now =
    let (t, digit) = listen m r pcm in
    let (u, digits) = report_heard t digit now in
    let (queue, addr, pt) =
      Keeps-trans r t u (listen_with m r pcm r.inband refl) (report_heard-Keeps t digit now) in
    (ap (λ q. q ++ pcm ∷ []) queue, addr, pt)

-- Audio that arrives as a packet of a codec without a state.
abbrev decoded_as : ℕ → Text → Samples
decoded_as pt payload =
    if pt == pcma then map alaw_to_linear payload else map ulaw_to_linear payload

abbrev pub IsG711 : ℕ → Type 0
IsG711 pt = (pt ≡ pcmu) ⊎ (pt ≡ pcma)

decode_as :
    (m : Media) (r : RtpSession) (payload : Text) (pt : ℕ)
    → IsG711 pt
    → decode m r payload pt ≡ (r, samples (decoded_as pt payload))
unfolding decode
decode_as m r payload pt (inl e) = rw e refl
decode_as m r payload pt (inr e) = rw e refl

abbrev taken_by : Media → ℕ → RtpSession × Decoded → RtpSession
taken_by m now (r, d) = (after_packet (take_audio m r d now) now).0

handle_audio-Gets :
    (m : Media) (r : RtpSession) (payload : Text) (pt now : ℕ)
    → IsG711 pt
    → Gets r (decoded_as pt payload) (after_packet (handle_audio m r payload pt now) now).0
unfolding handle_audio
handle_audio-Gets m r payload pt now g =
    let (queue, addr, dtmf) = noticed-Keeps r pt in
    let (more, same, still) = audio_is_taken m (noticed r pt) (decoded_as pt payload) now in
    subst (Gets r (decoded_as pt payload))
      (ap (taken_by m now) (sym (decode_as m (noticed r pt) payload pt g)))
      (more ∙ ap (λ q. q ++ decoded_as pt payload ∷ []) queue, same ∙ addr, still ∙ dtmf)

-- A session that takes the audio of a payload type from a host.
abbrev pub IsOpenTo : RtpSession → Text → ℕ → Type 0
IsOpenTo r host pt = (host ≡ r.remote_addr.0) × (is_pt r.dtmf_payload_type pt ≡ false)

is_long :
    (n : ℕ)
    → ltb (suc (suc (suc (suc (suc (suc (suc (suc (suc (suc (suc (suc n)))))))))))) 12 ≡ false
is_long n = ground arith

packet_is_audio :
    (m : Media) (r : RtpSession) (pt seq timestamp ssrc : ℕ) (payload : Text) (addr : Text × ℕ)
    (now : ℕ)
    → IsG711 pt
    → IsOpenTo r addr.0 pt
    → handle_packet m r (pack_header pt seq timestamp ssrc ++ payload) addr now
      ≡ handle_audio m r payload pt now
unfolding handle_packet pack_header be16 be32
packet_is_audio m r pt seq timestamp ssrc payload addr now g (from, audio) =
    let known : text_eq addr.0 r.remote_addr.0 ≡ true =
      (text_eq_iff addr.0 r.remote_addr.0).1 from in
    let small : pt % 128 ≡ pt = elim g [ inl e ↦ rw e refl | inr e ↦ rw e refl ] in
    rw (known, small, audio, is_long (length payload)) refl

packet-Gets :
    (m : Media) (r : RtpSession) (pt seq timestamp ssrc : ℕ) (payload : Text) (addr : Text × ℕ)
    (now : ℕ)
    → IsG711 pt
    → IsOpenTo r addr.0 pt
    → Gets r
        (decoded_as pt payload)
        (receive m r (pack_header pt seq timestamp ssrc ++ payload) addr now).0
unfolding receive
packet-Gets m r pt seq timestamp ssrc payload addr now g takes =
    subst (λ h. Gets r (decoded_as pt payload) (after_packet h now).0)
      (sym (packet_is_audio m r pt seq timestamp ssrc payload addr now g takes))
      (handle_audio-Gets m r payload pt now g)

-- What the encoder of a codec without a state makes of a chunk.
encode_as :
    (m : Media) (s : RtpSession) (c : Samples)
    → IsG711 s.payload_type
    → ((encode m s c).0 ≡ s) × (decoded_as s.payload_type (encode m s c).1 ≡ coded s.payload_type c)
unfolding encode coded
encode_as m s c (inl e) = rw e (refl, refl)
encode_as m s c (inr e) = rw e (refl, refl)

-- Packets that arrive one after the other from one address, each at a time of the clock.
unfoldable pub arrivals : Text × ℕ → (ℕ → ℕ) → ℕ → List Text → List Arrival
arrivals addr clock n [] = []
arrivals addr clock n (p ∷ ps) =
    record { packet = p; addr = addr; now = clock n } ∷ arrivals addr clock (suc n) ps

send_chunk_as :
    (m : Media) (s : RtpSession) (c : Samples)
    → IsG711 s.payload_type
    → ((send_chunk m s c).0.payload_type ≡ s.payload_type)
      × ((send_chunk m s c).1
          ≡ pack_header s.payload_type s.seq s.timestamp s.ssrc ++ (encode m s c).1)
unfolding send_chunk
send_chunk_as m s c g = (ap (λ t. t.payload_type) (encode_as m s c g).0, refl)

IsOpenTo-same :
    (r t : RtpSession) (host : Text) (pt : ℕ) (pcm : Samples)
    → Gets r pcm t
    → IsOpenTo r host pt
    → IsOpenTo t host pt
IsOpenTo-same r t host pt pcm (queue, addr, dtmf) (from, audio) =
    (from ∙ ap (λ a. a.0) (sym addr), ap (λ d. is_pt d pt) dtmf ∙ audio)

chunks_are_carried :
    (m far : Media) (s r : RtpSession) (cs : List Samples) (addr : Text × ℕ) (clock : ℕ → ℕ) (n : ℕ)
    → IsG711 s.payload_type
    → IsOpenTo r addr.0 s.payload_type
    → (recv_loop far r (arrivals addr clock n (send_chunks m s cs).1)).0.recv_queue
      ≡ r.recv_queue ++ map (coded s.payload_type) cs
unfolding send_chunks recv_loop arrivals
chunks_are_carried m far s r [] addr clock n g takes = sym (append-nil r.recv_queue)
chunks_are_carried m far s r (c ∷ cs) addr clock n g takes =
    let (t, packet) = send_chunk m s c in
    let (same_pt, shape) = send_chunk_as m s c g in
    let (kept, value) = encode_as m s c g in
    let u = (receive far r packet addr (clock n)).0 in
    let got : Gets r (coded s.payload_type c) u =
      subst (λ p. Gets r (coded s.payload_type c) (receive far r p addr (clock n)).0) (sym shape)
        (subst
          (λ x.
            Gets r x
              (receive far r
                (pack_header s.payload_type s.seq s.timestamp s.ssrc ++ (encode m s c).1) addr
                (clock n)).0)
          value
          (packet-Gets far r s.payload_type s.seq s.timestamp s.ssrc (encode m s c).1 addr (clock n)
            g takes)) in
    let open_still = IsOpenTo-same r u addr.0 s.payload_type (coded s.payload_type c) got takes in
    chunks_are_carried m far t u cs addr clock (suc n) (subst IsG711 (sym same_pt) g)
      (subst (IsOpenTo u addr.0) (sym same_pt) open_still)
    ∙ ap₂ (λ q pt. q ++ map (coded pt) cs) got.0 same_pt
    ∙ append_assoc r.recv_queue (coded s.payload_type c ∷ []) (map (coded s.payload_type) cs)

-- Audio sent in one session with a G.711 codec is queued in the session that gets its packets in
-- order, coded and decoded, in chunks of one packet each: all of one size, and together the audio,
-- then less silence than one packet. The session there does not take the payload type for events.
pub audio_is_carried :
    (m far : Media) (s r : RtpSession) (pcm : Samples) (addr : Text × ℕ) (clock : ℕ → ℕ)
    → IsG711 s.payload_type
    → 0 < s.samples_per_packet
    → IsOpenTo r addr.0 s.payload_type
    → (cs : List Samples) × ((recv_loop far r
          (arrivals addr clock 0 (send_pcm m s pcm).1)).0.recv_queue
        ≡ r.recv_queue ++ map (coded s.payload_type) cs)
      × AreChunks s.samples_per_packet pcm cs
unfolding send_pcm
audio_is_carried m far s r pcm addr clock g size takes =
    let cs = chunks (length pcm) s.samples_per_packet pcm in
    (
      cs,
      chunks_are_carried m far s r cs addr clock 0 g takes,
      chunks-AreChunks (length pcm) s.samples_per_packet pcm size (omega arith),
    )

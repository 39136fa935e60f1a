-- ===== src/Sbus/Stream.antt =====
-- What the decoder makes of a stream of bytes.
use mathlib.Core.List.{append_assoc, append-nil}
use robosw.Base.{
  ℕ, zero, suc, ◌+◌, ◌-◌, ◌<◌, ◌≡◌, ◌≢◌, refl, ap, sym, ◌∙◌, true, false, List, [], ◌∷◌, ◌++◌,
  arith, length, length-append, set, replicate, Bool-cases, inl, inr, ◌==◌, if◌then◌else◌,
}
use robosw.Sbus.{
  SbusDecodeBuffer, SbusMessage, wait_for_sof, wait_for_payload, wait_for_eof, on_sof, on_payload,
  on_eof, decode_in, decode_message, build_message, frame_length,
}

-- The caller's loop: the messages that are reported, in order, and the decoder after the bytes.
unfoldable pub feed : SbusDecodeBuffer → SbusMessage → List ℕ → List SbusMessage × SbusDecodeBuffer
feed b msg [] = ([], b)
feed b msg (ch ∷ chs) =
    let (parsed, b', msg') = decode_message b ch msg in
    let (found, b'') = feed b' msg' chs in if parsed then (msg' ∷ found, b'') else (found, b'')

set-append :
    (pre rest : List ℕ) (x v i : ℕ)
    → i ≡ length pre
    → set (pre ++ x ∷ rest) i v ≡ (pre ++ v ∷ []) ++ rest
set-append [] rest x v zero e = refl
set-append [] rest x v (suc i) e = absurd (omega arith)
set-append (p ∷ pre) rest x v zero e = absurd (omega arith)
set-append (p ∷ pre) rest x v (suc i) e = ap (λ l. p ∷ l) (set-append pre rest x v i (omega arith))

-- A decoder that has stored `pre` and waits for the rest of a payload.
abbrev mid : List ℕ → ℕ → SbusDecodeBuffer
mid pre left = record {
  decode_state = wait_for_payload;
  decode_data = pre ++ replicate (suc left) 0;
  indexer = length pre - 1;
}

abbrev full : List ℕ → SbusDecodeBuffer
full pre = record { decode_state = wait_for_eof; decode_data = pre ++ 0 ∷ []; indexer = 23 }

-- One payload byte, with more to come.
payload_step :
    (pre : List ℕ) (left x : ℕ) (msg : SbusMessage)
    → 0 < length pre
    → length pre + suc (suc left) ≡ 24
    → decode_message (mid pre (suc (suc left))) x msg ≡ (false, mid (pre ++ x ∷ []) (suc left), msg)
unfolding decode_message decode_in on_payload
payload_step pre left x msg some room = rw test λ k. (
  false,
  record {
    decode_state = wait_for_payload;
    decode_data = set-append pre (replicate (suc (suc left)) 0) 0 x _ at k;
    indexer = next k;
  },
  msg,
)
  where
    test : (length pre - 1 + 1 == 23) ≡ false
    test = ground arith

    at : length pre - 1 + 1 ≡ length pre
    at = omega arith

    next : length pre - 1 + 1 ≡ length (pre ++ x ∷ []) - 1
    next = omega (arith, length-append pre (x ∷ []))

-- The last one.
payload_last :
    (pre : List ℕ) (x : ℕ) (msg : SbusMessage)
    → length pre ≡ 23
    → decode_message (mid pre 1) x msg ≡ (false, full (pre ++ x ∷ []), msg)
unfolding decode_message decode_in on_payload
payload_last pre x msg room = rw test λ k. (
  false,
  record {
    decode_state = wait_for_eof;
    decode_data = set-append pre (0 ∷ []) 0 x _ at k;
    indexer = last k;
  },
  msg,
)
  where
    test : (length pre - 1 + 1 == 23) ≡ true
    test = ground arith

    at : length pre - 1 + 1 ≡ length pre
    at = omega arith

    last : length pre - 1 + 1 ≡ 23
    last = omega arith

-- The rest of a payload is stored behind what is there, and nothing is reported.
feed-payload :
    (ps pre rest : List ℕ) (msg : SbusMessage)
    → 0 < length pre
    → 0 < length ps
    → length pre + length ps ≡ 24
    → feed (mid pre (length ps)) msg (ps ++ rest) ≡ feed (full (pre ++ ps)) msg rest
unfolding feed
feed-payload [] pre rest msg some more room = absurd (omega arith)
feed-payload (p ∷ []) pre rest msg some more room = rw (payload_last pre p msg (omega arith)) refl
feed-payload (p ∷ q ∷ ps) pre rest msg some more room =
    rw (payload_step pre (length ps) p msg some room) (
      feed-payload (q ∷ ps) (pre ++ p ∷ []) rest msg (omega (arith, length-append pre (p ∷ [])))
        (omega arith) (omega (arith, length-append pre (p ∷ [])))
      ∙ ap (λ l. feed (full l) msg rest) (append_assoc pre (p ∷ []) (q ∷ ps)))

-- Bytes without a frame head, fed while the decoder looks for one, are passed over.
abbrev pub HasNoHead : List ℕ → Type 0
HasNoHead [] = Unit {0}
HasNoHead (x ∷ xs) = (x ≢ 0x0f) × HasNoHead xs

abbrev cleared : SbusDecodeBuffer → SbusDecodeBuffer
cleared b = record b { indexer = 0; decode_data = replicate frame_length 0 }

sof_noise :
    (b : SbusDecodeBuffer) (x : ℕ) (msg : SbusMessage)
    → b.decode_state ≡ wait_for_sof
    → x ≢ 0x0f
    → decode_message b x msg ≡ (false, cleared b, msg)
unfolding decode_message decode_in on_sof
sof_noise b x msg look h = simp look (rw noise refl)
  where
    noise : (x == 0x0f) ≡ false
    noise = ground arith

sof_head :
    (b : SbusDecodeBuffer) (msg : SbusMessage)
    → b.decode_state ≡ wait_for_sof
    → decode_message b 0x0f msg ≡ (false, mid (0x0f ∷ []) 23, msg)
unfolding decode_message decode_in on_sof
sof_head b msg look = simp look

-- The last byte, after 24 others.
feed-last :
    (pre : List ℕ) (tail : ℕ) (msg : SbusMessage)
    → length pre ≡ 24
    → ((feed (full pre) msg (tail ∷ [])).0
        ≡ (if tail == 0 then build_message (pre ++ tail ∷ []) ∷ [] else []))
      × ((feed (full pre) msg (tail ∷ [])).1.decode_state ≡ wait_for_sof)
unfolding feed decode_message decode_in on_eof
feed-last pre tail msg room = elim (Bool-cases (tail == 0)) [
  | inl e ↦ rw e (ap (λ d. build_message d ∷ []) stored, refl)
  | inr e ↦ rw e (refl, refl)
]
  where
    stored : set (pre ++ 0 ∷ []) 24 tail ≡ pre ++ tail ∷ []
    stored = set-append pre [] 0 tail 24 (sym room) ∙ append-nil (pre ++ tail ∷ [])

-- A decoder that looks for a head is fed bytes without one, then a head, 23 bytes and a last byte: it
-- reports just the message of this frame if the last byte is 0, and nothing otherwise, and looks for a
-- head again.
pub feed-frame :
    (b : SbusDecodeBuffer) (msg : SbusMessage) (noise ps : List ℕ) (tail : ℕ)
    → b.decode_state ≡ wait_for_sof
    → HasNoHead noise
    → length ps ≡ 23
    → let frame = 0x0f ∷ ps ++ tail ∷ [] in
      ((feed b msg (noise ++ frame)).0 ≡ (if tail == 0 then build_message frame ∷ [] else []))
      × ((feed b msg (noise ++ frame)).1.decode_state ≡ wait_for_sof)
unfolding feed
feed-frame b msg [] ps tail look clean room =
    rw
      (
        sof_head b msg look,
        start,
        feed-payload ps (0x0f ∷ []) (tail ∷ []) msg (omega arith) (omega arith) (omega arith),
      )
      (feed-last (0x0f ∷ ps) tail msg (omega arith))
  where
    start : mid (0x0f ∷ []) 23 ≡ mid (0x0f ∷ []) (length ps)
    start = ap (mid (0x0f ∷ [])) (sym room)
feed-frame b msg (x ∷ noise) ps tail look clean room =
    rw (sof_noise b x msg look clean.0) (feed-frame (cleared b) msg noise ps tail look clean.1 room)

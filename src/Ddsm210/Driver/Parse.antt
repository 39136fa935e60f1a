-- ===== src/Ddsm210/Driver/Parse.antt =====
-- `ProcessFeedback` against a parser of the byte stream.
use mathlib.Core.List.{append-nil}
use robosw.Base.{
  ℕ, zero, suc, ◌+◌, ◌-◌, ◌<◌, ◌≤◌, ◌≡◌, refl, ap, sym, ◌∙◌, Bool, List, ◌++◌, arith, leb,
  if◌then◌else◌, length, length-take, length-drop, take, drop, Bool-cases, inl, inr,
}
use robosw.RingBuffer.{get_occupied_size, write_all, read_from, peek_from}
use robosw.RingBuffer.Inv.{IsValid, occupied-count}
use robosw.RingBuffer.Window.{contents, length-contents}
use robosw.RingBuffer.Peek.{peek_from_refines}
use robosw.RingBuffer.Burst.{Wrote, Took, write_all-Wrote, read_from-Took}
use robosw.Ddsm210.Frame.{RawFeedback, decode}
use robosw.Ddsm210.Driver.{Ddsm210, absorb, peek_frame, decode_one, drain, process_feedback}

module _ (memory : List ℕ) (id : ℕ) where
  -- Ten bytes that are a valid frame are used and dropped together; otherwise one byte is dropped.
  unfoldable pub parse : ℕ → RawFeedback × Bool → List ℕ → (RawFeedback × Bool) × List ℕ
  parse zero fb q = (fb, q)
  parse (suc fuel) fb q =
      let f = decode memory id (take 10 q) in
      let used = parse fuel (absorb f fb) (drop 10 q) in
      let skipped = parse fuel fb (drop 1 q) in
      if leb 10 (length q) then (if f.valid then used else skipped) else (fb, q)

  -- With fuel for each byte the parser stops with less than a frame left.
  pub length-parse :
      (fuel : ℕ) (fb : RawFeedback × Bool) (q : List ℕ)
      → length q < fuel
      → length (parse fuel fb q).1 < 10
  unfolding parse
  length-parse zero fb q h = absurd (omega arith)
  length-parse (suc fuel) fb q h = ground (
    arith,
    length-drop 10 q,
    length-drop 1 q,
    length-parse fuel (absorb (decode memory id (take 10 q)) fb) (drop 10 q),
    length-parse fuel fb (drop 1 q),
  )

  -- What a driver has decoded, and the bytes that wait in its buffer.
  abbrev pub view : Ddsm210 → (RawFeedback × Bool) × List ℕ
  view m = ((m.raw_feedback, m.id_set_ack_received), contents 0 m.rx_buffer)

  -- A driver of this motor with a sound buffer that can hold a frame.
  pub record IsReady (bits : ℕ) (m : Ddsm210) : Type 0 where
    pub same_id : m.motor_id ≡ id
    pub valid : IsValid bits m.rx_buffer
    pub roomy : 10 < m.rx_buffer.size

  module _ {bits : ℕ} where
    length-waiting :
        {m : Ddsm210} → IsReady bits m → get_occupied_size m.rx_buffer ≡ length (view m).1
    length-waiting g = occupied-count g.valid ∙ sym (length-contents 0 g.valid)

    peek_frame-take :
        {m : Ddsm210}
        → IsReady bits m
        → 10 ≤ length (view m).1
        → peek_frame m.rx_buffer ≡ take 10 (view m).1
    unfolding peek_frame
    peek_frame-take {m} g h =
        let e : peek_from (λ _. m.rx_buffer) 0 10 0 ≡ take 10 (view m).1 =
          peek_from_refines 0 g.valid (omega (arith, g.roomy)) 10 0 in
        let k : 10 - length (take 10 (view m).1) ≡ 0 = omega (arith, length-take 10 (view m).1) in
        rw (e, k) (append-nil (take 10 (view m).1))

    taken :
        {m : Ddsm210} (k : ℕ)
        → IsReady bits m
        → Took 0 bits m.rx_buffer k (read_from m.rx_buffer k 0)
    taken {m} k g = read_from-Took 0 bits k m.rx_buffer g.valid

    -- One round of the loop: a valid frame is absorbed, or one byte is dropped.
    decode_one_refines :
        {m : Ddsm210}
        → IsReady bits m
        → 10 ≤ length (view m).1
        → let f = decode memory id (take 10 (view m).1) in
          view (decode_one memory m) ≡ (
            if f.valid
            then (absorb f (view m).0, drop 10 (view m).1)
            else ((view m).0, drop 1 (view m).1))
    unfolding decode_one absorb
    decode_one_refines {m} g h =
        rw (peek_frame-take g h, g.same_id)
          (elim (Bool-cases (decode memory id (take 10 (view m).1)).valid) [
            | inl e ↦ rw e λ i.
                (absorb (decode memory id (take 10 (view m).1)) (view m).0, (taken 10 g).left i)
            | inr e ↦ rw e λ i. ((view m).0, (taken 1 g).left i)
          ])

    decode_one-IsReady : {m : Ddsm210} → IsReady bits m → IsReady bits (decode_one memory m)
    unfolding decode_one
    decode_one-IsReady {m} g =
        elim (Bool-cases (decode memory m.motor_id (peek_frame m.rx_buffer)).valid) [
          | inl e ↦ rw e (record {
            same_id = g.same_id;
            valid = (taken 10 g).valid;
            roomy = rw (taken 10 g).same_size g.roomy;
          })
          | inr e ↦ rw e (record {
            same_id = g.same_id;
            valid = (taken 1 g).valid;
            roomy = rw (taken 1 g).same_size g.roomy;
          })
        ]

    drain_refines :
        (fuel : ℕ) {m : Ddsm210}
        → IsReady bits m
        → view (drain memory fuel m) ≡ parse fuel (view m).0 (view m).1
    unfolding drain parse
    drain_refines zero g = refl
    drain_refines (suc fuel) {m} g =
        ground
          (arith, length-waiting g, decode_one_refines g, drain_refines fuel (decode_one-IsReady g))

    -- With the new bytes fitting a valid buffer of more than ten places, `ProcessFeedback` is the
    -- parser with the same fuel, run on the waiting bytes and the new ones behind them.
    pub process_feedback_refines :
        (fuel : ℕ) (bytes : List ℕ) (m : Ddsm210)
        → IsReady bits m
        → length (view m).1 + length bytes < m.rx_buffer.size
        → view (process_feedback memory fuel bytes m) ≡ parse fuel (view m).0 ((view m).1 ++ bytes)
    unfolding process_feedback
    process_feedback_refines fuel bytes m g fits =
        drain_refines fuel
          (record { same_id = g.same_id; valid = w.valid; roomy = rw w.same_size g.roomy })
        ∙ ap (parse fuel (view m).0) w.behind
      where
        w : Wrote 0 bits m.rx_buffer bytes 0 (write_all m.rx_buffer bytes)
        w =
            write_all-Wrote 0 bits bytes m.rx_buffer g.valid
              (rw (sym (length-contents 0 g.valid)) fits)
